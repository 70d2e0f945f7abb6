-- ===== src/Swap/State.antt =====
-- internal/swap/swap.go: `TransitionTo` and `IsTerminal`.
mod Tests
use mathlib.Core.List.{Memᴰ}
use klingdex.Prelude.{
  ℕ, ◌+◌, ◌≤◌, Bool, true, false, ◌≡◌, refl, sym, ap, ◌↔◌, ◌⊎◌, inl, inr, Option, none, some, List,
  [], ◌∷◌, arith, str_eq, if◌then◌else◌,
}
use klingdex.Swap.Types.{
  State, none_state, init, funding, funded, redeemed, refunded, failed, cancelled, other, SwapError,
  invalid_state, Swap,
}

-- Go's `==` on state strings.
abbrev pub state_eq : State → State → Bool
state_eq none_state none_state = true
state_eq init init = true
state_eq funding funding = true
state_eq funded funded = true
state_eq redeemed redeemed = true
state_eq refunded refunded = true
state_eq failed failed = true
state_eq cancelled cancelled = true
state_eq (other a) (other b) = str_eq a b
state_eq _ _ = false

-- The map `valid` of the source, with its missing keys.
valid_transitions : State → Option (List State)
valid_transitions none_state = none
valid_transitions init = some (funding ∷ cancelled ∷ [])
valid_transitions funding = some (funded ∷ refunded ∷ failed ∷ [])
valid_transitions funded = some (redeemed ∷ refunded ∷ [])
valid_transitions redeemed = some []
valid_transitions refunded = some []
valid_transitions failed = some []
valid_transitions cancelled = some []
valid_transitions (other _) = none

-- The loop over `validTransitions`: whether the new state is among them.
contains_state : List State → State → Bool
contains_state [] t = false
contains_state (x ∷ xs) t = if state_eq x t then true else contains_state xs t

allows : Option (List State) → State → Bool
unfolding contains_state
allows none t = false
allows (some ts) t = contains_state ts t

-- Both refusals wrap `ErrInvalidState`; the receiver is then unchanged.
unfoldable pub transition_to : Swap → State → Swap × Option SwapError
unfolding valid_transitions allows
transition_to s t =
    if allows (valid_transitions s.state) t
    then (record s { state = t }, none)
    else (s, some invalid_state)

abbrev is_terminal_state : State → Bool
is_terminal_state redeemed = true
is_terminal_state refunded = true
is_terminal_state failed = true
is_terminal_state cancelled = true
is_terminal_state _ = false

unfoldable pub is_terminal : Swap → Bool
is_terminal s = is_terminal_state s.state

-- The life of a swap as a diagram.
infix 40 ◌⟶◌
pub data ◌⟶◌ : State → State → Type 0 where
  start_funding : init ⟶ funding
  cancel : init ⟶ cancelled
  both_funded : funding ⟶ funded
  refund_partial : funding ⟶ refunded
  fail_funding : funding ⟶ failed
  redeem : funded ⟶ redeemed
  refund : funded ⟶ refunded

ruleset edges = (start_funding, cancel, both_funded, refund_partial, fail_funding, redeem, refund)

edge_of : (s : Swap) (t : State) → (transition_to s t).1 ≡ none → s.state ⟶ t
unfolding transition_to
edge_of s t h = grind (arith, edges)

transition_of_edge :
    {a t : State} (s : Swap)
    → s.state ≡ a
    → a ⟶ t
    → transition_to s t ≡ (record s { state = t }, none)
unfolding transition_to
transition_of_edge s e start_funding = ground arith
transition_of_edge s e cancel = ground arith
transition_of_edge s e both_funded = ground arith
transition_of_edge s e refund_partial = ground arith
transition_of_edge s e fail_funding = ground arith
transition_of_edge s e redeem = ground arith
transition_of_edge s e refund = ground arith

-- A transition is accepted exactly along an edge of the diagram. An accepted one writes the new
-- state and no other field, and a refused one leaves the swap as it was.
pub transition_to_iff :
    (s : Swap) (t : State)
    → (((transition_to s t).1 ≡ none) ↔ (s.state ⟶ t))
      × ((s.state ⟶ t) → (transition_to s t).0 ≡ record s { state = t })
      × ((transition_to s t).1 ≡ some invalid_state → (transition_to s t).0 ≡ s)
unfolding transition_to
transition_to_iff s t = (
  (edge_of s t, λ e. ap (λ r. r.1) (transition_of_edge s refl e)),
  (λ e. ap (λ r. r.0) (transition_of_edge s refl e)),
  (λ h. ground arith),
)

-- Requests for transitions, one after another; the caller goes on after a refusal.
unfoldable pub run : Swap → List State → Swap
run s [] = s
run s (t ∷ ts) = run (transition_to s t).0 ts

step_of_terminal :
    (s : Swap) (t : State) → is_terminal s ≡ true → transition_to s t ≡ (s, some invalid_state)
unfolding transition_to is_terminal
step_of_terminal s t h = ground arith

-- A terminal swap stays as it is under every sequence of requests.
pub run_of_terminal : (s : Swap) (ts : List State) → is_terminal s ≡ true → run s ts ≡ s
unfolding run
run_of_terminal s [] h = refl
run_of_terminal s (t ∷ ts) h = rw (step_of_terminal s t h) (run_of_terminal s ts h)

-- How many accepted transitions a swap can still make.
abbrev steps_left : State → ℕ
steps_left init = 3
steps_left funding = 2
steps_left funded = 1
steps_left _ = 0

abbrev accepted : Option SwapError → ℕ → ℕ
accepted none n = n + 1
accepted (some _) n = n

unfoldable pub count_accepted : Swap → List State → ℕ
count_accepted s [] = 0
count_accepted s (t ∷ ts) = let (s', e) = transition_to s t in accepted e (count_accepted s' ts)

step_spends :
    (s : Swap) (t : State) (n : ℕ)
    → n ≤ steps_left (transition_to s t).0.state
    → accepted (transition_to s t).1 n ≤ steps_left s.state
unfolding transition_to
step_spends s t n h = ground arith

-- However many transitions are requested, at most three are accepted.
pub count_accepted_le : (s : Swap) (ts : List State) → count_accepted s ts ≤ 3
unfolding count_accepted
count_accepted_le s ts = omega (arith, spend s ts, steps_left_le s.state)
  where
    steps_left_le : (a : State) → steps_left a ≤ 3
    steps_left_le a = ground arith

    spend : (s : Swap) (ts : List State) → count_accepted s ts ≤ steps_left s.state
    spend s [] = omega arith
    spend s (t ∷ ts) = step_spends s t _ (spend (transition_to s t).0 ts)

-- Funding has been seen.
abbrev is_past_funding : State → Bool
is_past_funding funded = true
is_past_funding redeemed = true
is_past_funding _ = false

step_past_funding :
    (s : Swap) (t : State)
    → is_past_funding s.state ≡ false
    → (t ≡ funded) ⊎ (is_past_funding (transition_to s t).0.state ≡ false)
unfolding transition_to
step_past_funding s t h = ground arith

run_past_funding :
    (s : Swap) (ts : List State)
    → is_past_funding s.state ≡ false
    → is_past_funding (run s ts).state ≡ true
    → Memᴰ funded ts
unfolding run
run_past_funding s [] h l = cc
run_past_funding s (t ∷ ts) h l = elim (step_past_funding s t h) [
  | inl p ↦ Memᴰ.head (sym p)
  | inr q ↦ Memᴰ.tail (run_past_funding (transition_to s t).0 ts q l)
]

-- A swap that has not been funded is redeemed only if the `funded` transition was requested.
pub redeemed_needs_funded :
    (s : Swap) (ts : List State)
    → is_past_funding s.state ≡ false
    → (run s ts).state ≡ redeemed
    → Memᴰ funded ts
redeemed_needs_funded s ts h e = run_past_funding s ts h (rw e)
