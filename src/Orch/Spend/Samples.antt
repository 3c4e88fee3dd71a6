-- ===== src/Orch/Spend/Samples.antt =====
-- A capped provider over two turns: internal/orch/spend.go at concrete amounts.
use radioactive_ralph.Prelude.{
  ◌<◌, ◌≡◌, refl, String, true, some, none, [], ◌∷◌, inl, if◌then◌else◌, text_eq, arith, ltb, ◌≤◌,
}
use radioactive_ralph.Orch.Spend.{
  Ledger, admitted, refused, provider_turn_in_flight, spend_cap_exceeded, set_at, spend_key,
  check_spend_cap, release_spend_reservation, record_usage,
}
use radioactive_ralph.Orch.Spend.Keys.{is_plain}
use radioactive_ralph.Orch.Spend.Turns.{in_flight_of, Turn, Turns, Bounded}
use radioactive_ralph.Orch.Spend.Bound.{Turns-Bounded}

program : Unit {0}
unfolding spend_key check_spend_cap release_spend_reservation record_usage is_plain
program = tt

abbrev start : Ledger
start = record {
  caps = λ p. if text_eq p "claude" then some 10 else none;
  in_flight = λ k. 0;
  rows = [];
}

abbrev busy : Ledger
busy = record start { in_flight = set_at (spend_key "home" "claude") 1 start.in_flight }

abbrev billed : Ledger
billed = record busy { rows = record { project = "home"; provider = "claude"; cost = 12 } ∷ [] }

abbrev finish : Ledger
finish = release_spend_reservation "home" "claude" billed

plain_home : is_plain "home" ≡ true
unfolding program
plain_home = refl

admits : check_spend_cap "home" "claude" start ≡ admitted busy
unfolding program
admits = refl

defers : check_spend_cap "home" "claude" busy ≡ refused provider_turn_in_flight
unfolding program
defers = refl

bills : record_usage "home" "claude" 12 busy ≡ admitted billed
unfolding program
bills = refl

caps_out : check_spend_cap "home" "claude" finish ≡ refused (spend_cap_exceeded 12 10)
unfolding program
caps_out = refl

counted : ltb 0 (in_flight_of "home" "claude" busy) ≡ true
unfolding program
counted = refl

small : 12 ≤ 15
small = omega arith

positive : 0 < 10
positive = omega arith

abbrev start_bounded : Bounded 15 10 "home" "claude" start
start_bounded = (refl, inl refl, omega arith)

abbrev one_turn : Turns 15 start finish
one_turn =
    Turns.next_turn (Turn.admit "home" "claude" plain_home admits)
      (Turns.next_turn (Turn.settle "home" "claude" 12 plain_home counted small bills) Turns.idle)

Turns-Bounded_example : Bounded 15 10 "home" "claude" finish
Turns-Bounded_example =
    Turns-Bounded 15 10 "home" "claude" positive plain_home start finish one_turn start_bounded

abbrev home : String
home = "home"

abbrev claude : String
claude = "claude"
