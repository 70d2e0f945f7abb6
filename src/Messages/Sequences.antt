-- ===== src/Messages/Sequences.antt =====
-- internal/storage/message_queue.go: the sequence numbers of each trade. The table is the list of
-- its rows; `now` is the clock, and a failure of the database itself is left out.
use klingdex.Tables.{storable}
use klingdex.Prelude.{
  ℕ, ◌+◌, ◌≤◌, String, true, false, ◌≡◌, ◌≢◌, refl, List, [], ◌∷◌, arith, leb, if◌then◌else◌,
  str_eq, eq_iff, Bool-cases, inl, inr,
}

pub record MessageSequence : Type 0 where
  pub trade_id : String
  pub local_seq : ℕ
  pub remote_seq : ℕ
  pub updated_at : ℕ

abbrev pub Sequences : Type 0
Sequences = List MessageSequence

-- `GetSequences`: a trade with no row has the zero value.
unfoldable pub get_sequences : String → Sequences → MessageSequence
get_sequences t [] = record { trade_id = t; local_seq = 0; remote_seq = 0; updated_at = 0 }
get_sequences t (r ∷ rs) = let rest = get_sequences t rs in if str_eq r.trade_id t then r else rest

-- `UPDATE`, or an `INSERT` where no row is affected. The trade id is the primary key, so the
-- update stops at the first row.
unfoldable pub get_next_local_sequence : ℕ → String → Sequences → Sequences × ℕ
get_next_local_sequence now t [] =
    (record { trade_id = t; local_seq = 1; remote_seq = 0; updated_at = now } ∷ [], 1)
get_next_local_sequence now t (r ∷ rs) =
    let (rs', n) = get_next_local_sequence now t rs in
    if str_eq r.trade_id t
    then (record r { local_seq = r.local_seq + 1; updated_at = now } ∷ rs, r.local_seq + 1)
    else (r ∷ rs', n)

-- `MAX(remote_seq, excluded.remote_seq)`
abbrev max : ℕ → ℕ → ℕ
max a b = if leb a b then b else a

unfoldable set_remote_sequence : ℕ → String → ℕ → Sequences → Sequences
set_remote_sequence now t n [] =
    record { trade_id = t; local_seq = 0; remote_seq = n; updated_at = now } ∷ []
set_remote_sequence now t n (r ∷ rs) =
    let rest = set_remote_sequence now t n rs in
    if str_eq r.trade_id t
    then record r { remote_seq = max r.remote_seq n; updated_at = now } ∷ rs
    else r ∷ rest

-- A number that the database cannot store changes nothing: the error is only logged.
unfoldable pub update_remote_sequence : ℕ → String → ℕ → Sequences → Sequences
unfolding set_remote_sequence
update_remote_sequence now t n rows = if storable n then set_remote_sequence now t n rows else rows

str_eq_refl : (a : String) → str_eq a a ≡ true
str_eq_refl a = (eq_iff a a).1 refl

str_eq-other : (a b c : String) → b ≢ c → str_eq a b ≡ true → str_eq a c ≡ false
str_eq-other a b c ne e = elim (Bool-cases (str_eq a c)) [
  | inr no' ↦ no'
  | inl yes' ↦ let p = (eq_iff a b).0 e in let q = (eq_iff a c).0 yes' in absurd (ne (rw p at q))
]

next_local_self :
    (now : ℕ) (t : String) (rows : Sequences)
    → let after = get_next_local_sequence now t rows in
      (after.1 ≡ (get_sequences t rows).local_seq + 1)
      × ((get_sequences t after.0).local_seq ≡ after.1)
      × ((get_sequences t after.0).remote_seq ≡ (get_sequences t rows).remote_seq)
unfolding get_next_local_sequence get_sequences
next_local_self now t [] = ground (arith, str_eq_refl t)
next_local_self now t (r ∷ rs) = ground (arith, next_local_self now t rs)

next_local-other :
    (now : ℕ) (t u : String) (rows : Sequences)
    → t ≢ u
    → get_sequences u (get_next_local_sequence now t rows).0 ≡ get_sequences u rows
unfolding get_next_local_sequence get_sequences
next_local-other now t u [] ne = rw (str_eq-other t t u ne (str_eq_refl t)) refl
next_local-other now t u (r ∷ rs) ne = elim (Bool-cases (str_eq r.trade_id t)) [
  | inl same ↦ rw (same, str_eq-other r.trade_id t u ne same) refl
  | inr diff ↦ rw (diff, next_local-other now t u rs ne) refl
]

update_remote_self :
    (now : ℕ) (t : String) (n : ℕ) (rows : Sequences)
    → let after = get_sequences t (set_remote_sequence now t n rows) in
      (n ≤ after.remote_seq)
      × ((get_sequences t rows).remote_seq ≤ after.remote_seq)
      × (after.local_seq ≡ (get_sequences t rows).local_seq)
unfolding set_remote_sequence get_sequences
update_remote_self now t n [] = ground (arith, str_eq_refl t)
update_remote_self now t n (r ∷ rs) = ground (arith, update_remote_self now t n rs)

-- The next local number of a trade is one more than its last one, starting from 1, and is kept as
-- the last one; the remote number and the numbers of every other trade stay.
pub get_next_local_sequence-counts :
    (now : ℕ) (t : String) (rows : Sequences)
    → let after = get_next_local_sequence now t rows in
      (after.1 ≡ (get_sequences t rows).local_seq + 1)
      × ((get_sequences t after.0).local_seq ≡ after.1)
      × ((get_sequences t after.0).remote_seq ≡ (get_sequences t rows).remote_seq)
      × ((u : String) → t ≢ u → get_sequences u after.0 ≡ get_sequences u rows)
get_next_local_sequence-counts now t rows =
    let (a, b, c) = next_local_self now t rows in
    (a, b, c, λ u ne. next_local-other now t u rows ne)

-- Recording a received number that the database can store never lowers the remote number of the
-- trade, which is then at least the received one, and leaves its local number alone.
pub update_remote_sequence-is_monotone :
    (now : ℕ) (t : String) (n : ℕ) (rows : Sequences)
    → storable n ≡ true
    → let after = get_sequences t (update_remote_sequence now t n rows) in
      (n ≤ after.remote_seq)
      × ((get_sequences t rows).remote_seq ≤ after.remote_seq)
      × (after.local_seq ≡ (get_sequences t rows).local_seq)
unfolding update_remote_sequence
update_remote_sequence-is_monotone now t n rows small = rw small (update_remote_self now t n rows)
