-- ===== src/Enforcement/Validation.antt =====
-- The validation of a request: `validateRequest` of internal/enforcement/policy.go and what it calls.
-- `true` is the nil error, `false` is `errMalformed`.
use Prim.Native.Char.{Char, code}
use radioactive_ralph.Prelude.{
  ℕ, zero, suc, String, Bool, true, false, not, ◌&&◌, ◌||◌, Option, none, some, List, [], ◌∷◌, any,
  all, is_none, is_nil, length, ltb, leb, ◌==◌, text_eq,
}
use radioactive_ralph.Prelude.Int.{ℤ, pos, ltb_ℤ}
use radioactive_ralph.Enforcement.Vocabulary.{
  State, Action, PredicateKind, WaitOwner, Predicate, Policy, WaitWindow, Snapshot, PredicateResult,
  Event, Request, Clock,
}

abbrev pub max_budget : ℕ
max_budget = 1000

abbrev pub max_predicates : ℕ
max_predicates = 64

abbrev between : ℕ → ℕ → Char → Bool
between lo hi c = leb lo (code c) && leb (code c) hi

-- `[a-z0-9._-]`
abbrev is_identifier_char : Char → Bool
is_identifier_char c =
    between b'a' b'z' c || between b'0' b'9' c || code c == b'.' || code c == b'_' || code c == b'-'

-- At most `room` characters of an identifier, to the end of the text.
identifier_rest : ℕ → String → Bool
identifier_rest room String.[] = true
identifier_rest zero (String.◌∷◌ c s) = false
identifier_rest (suc room) (String.◌∷◌ c s) = is_identifier_char c && identifier_rest room s

-- `identifierPattern`: ^[a-z][a-z0-9._-]{0,63}$
unfoldable pub is_identifier : String → Bool
unfolding identifier_rest
is_identifier String.[] = false
is_identifier (String.◌∷◌ c s) = between b'a' b'z' c && identifier_rest 63 s

abbrev pub valid_state : State → Bool
valid_state (State.unknown s) = false
valid_state _ = true

abbrev pub valid_action : Action → Bool
valid_action (Action.unknown s) = false
valid_action _ = true

abbrev pub valid_predicate_kind : PredicateKind → Bool
valid_predicate_kind (PredicateKind.unknown s) = false
valid_predicate_kind _ = true

abbrev pub valid_wait_owner : WaitOwner → Bool
valid_wait_owner (WaitOwner.unknown s) = false
valid_wait_owner _ = true

-- The loop over the predicates: identifiers, known kinds, no id twice.
unfoldable pub valid_predicates : List Predicate → List String → Bool
unfolding is_identifier
valid_predicates [] seen = true
valid_predicates (p ∷ ps) seen =
    is_identifier p.id
    && valid_predicate_kind p.kind
    && not (any (text_eq p.id) seen)
    && valid_predicates ps (p.id ∷ seen)

abbrev pub in_budget : ℤ → Bool
in_budget n = not (ltb_ℤ n (pos 0)) && not (ltb_ℤ (pos max_budget) n)

-- The first two checks of `validateRequest`. `SchemaVersion` is 1.
unfoldable pub valid_policy : Policy → Bool
unfolding is_identifier valid_predicates
valid_policy p =
    not (ltb_ℤ p.schema_version (pos 1))
    && not (ltb_ℤ (pos 1) p.schema_version)
    && is_identifier p.policy_id
    && in_budget p.retry_budget
    && in_budget p.no_progress_budget
    && not (is_nil p.acceptance)
    && leb (length p.acceptance) max_predicates
    && valid_predicates p.acceptance []

abbrev pub predicate_id : Predicate → String
predicate_id p = p.id

abbrev pub is_predicate : List Predicate → String → Bool
is_predicate ps id = any (λ p. text_eq p.id id) ps

module _ (clock : Clock) where
  abbrev pub parse_window : WaitWindow → Option (ℕ × ℕ)
  parse_window w = elim (clock.parse w.recheck_at) [
    | none ↦ none
    | some recheck ↦ elim (clock.parse w.deadline) [
      | none ↦ none
      | some deadline ↦ some (recheck, deadline)
    ]
  ]

  abbrev pub parse_wait : Option WaitWindow → Option (ℕ × ℕ)
  parse_wait none = none
  parse_wait (some w) = parse_window w

  abbrev pub in_order : Option (ℕ × ℕ) → Bool
  in_order none = false
  in_order (some (recheck, deadline)) = ltb recheck deadline

  -- `validateWait`
  abbrev pub valid_wait : Option WaitWindow → Bool
  valid_wait none = false
  valid_wait (some w) = valid_wait_owner w.owner && in_order (parse_window w)

  abbrev pub is_state_blocked : State → Bool
  is_state_blocked State.blocked = true
  is_state_blocked _ = false

  abbrev pub valid_wait_in : State → Option WaitWindow → Bool
  valid_wait_in State.wait_external wait = valid_wait wait
  valid_wait_in _ wait = is_none wait

  -- The checks of the snapshot in `validateRequest`.
  unfoldable pub valid_snapshot : Policy → Snapshot → Bool
  valid_snapshot p s =
      valid_state s.state
      && not (ltb_ℤ s.retry_count (pos 0))
      && not (ltb_ℤ s.no_progress_count (pos 0))
      && not (ltb_ℤ (pos (suc max_budget)) s.retry_count)
      && not (ltb_ℤ (pos (suc max_budget)) s.no_progress_count)
      && (is_state_blocked s.state
          || (not (ltb_ℤ p.retry_budget s.retry_count)
              && not (ltb_ℤ p.no_progress_budget s.no_progress_count)))
      && valid_wait_in s.state s.wait

  -- `now` is before both times of the window.
  abbrev pub ahead_of : Option (ℕ × ℕ) → Option ℕ → Bool
  ahead_of none now = false
  ahead_of (some (recheck, deadline)) none = false
  ahead_of (some (recheck, deadline)) (some now) = ltb now recheck && ltb now deadline

  abbrev pub known_results : List Predicate → List (String × PredicateResult) → Bool
  known_results ps results =
      all (λ r. is_predicate ps r.0 && not (r.1.satisfied && not r.1.observed)) results

  abbrev pub valid_results : List Predicate → Option (List (String × PredicateResult)) → Bool
  valid_results ps none = false
  valid_results ps (some results) = known_results ps results

  -- The switch of `validateEvent`.
  abbrev pub valid_event_for :
      Action
      → List Predicate
      → String
      → Option WaitWindow
      → Option (List (String × PredicateResult))
      → Bool
  valid_event_for Action.wait_external ps now wait results =
      not (text_eq now "")
      && not (is_none (clock.parse now))
      && valid_wait wait
      && is_none results
      && ahead_of (parse_wait wait) (clock.parse now)
  valid_event_for Action.recheck ps now wait results =
      not (text_eq now "") && not (is_none (clock.parse now)) && is_none wait && is_none results
  valid_event_for Action.verify ps now wait results =
      text_eq now "" && is_none wait && valid_results ps results
  valid_event_for _ ps now wait results = text_eq now "" && is_none wait && is_none results

  -- `validateEvent`, with the check of the action before its call.
  unfoldable pub valid_event : Policy → Event → Bool
  valid_event p e =
      valid_action e.action && valid_event_for e.action p.acceptance e.now e.wait e.results

  unfoldable pub valid_request : Request → Bool
  unfolding valid_policy valid_snapshot valid_event
  valid_request r =
      valid_policy r.policy && valid_snapshot r.policy r.snapshot && valid_event r.policy r.event
