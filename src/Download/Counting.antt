-- ===== src/Download/Counting.antt =====
-- How often an index is in a slot, in a message, in the process queue.
use hibp.Common.{
  ℕ, suc, ◌+◌, ◌≤◌, ◌<◌, ◌≡◌, refl, ap, Bool, true, false, List, [], ◌∷◌, ◌++◌, Option, none, some,
  leb, ltb, ◌==◌, ◌&&◌, length, arith, Bool-cases, inl, inr,
}
use hibp.Download.{Transfer, find_slot, without, update, emplace, emplace_all, emplace_msgs}

abbrev pub one_if : Bool → ℕ
one_if true = 1
one_if false = 0

abbrev pub count : ℕ → List Transfer → ℕ
count i [] = 0
count i (t ∷ ts) = one_if (t.index == i) + count i ts

abbrev pub count_msgs : ℕ → List (List Transfer) → ℕ
count_msgs i [] = 0
count_msgs i (m ∷ ms) = count i m + count_msgs i ms

-- One for the indices from `a` to `b`.
abbrev pub between : ℕ → ℕ → ℕ → ℕ
between a b i = one_if (leb a i && ltb i b)

pub count-append : (i : ℕ) (ts us : List Transfer) → count i (ts ++ us) ≡ count i ts + count i us
count-append i [] us = omega arith
count-append i (t ∷ ts) us = omega (arith, count-append i ts us)

pub count_msgs-append :
    (i : ℕ) (ms : List (List Transfer)) (m : List Transfer)
    → count_msgs i (ms ++ (m ∷ [])) ≡ count_msgs i ms + count i m
count_msgs-append i [] m = omega arith
count_msgs-append i (n ∷ ms) m = omega (arith, count_msgs-append i ms m)

count-emplace : (i : ℕ) (t : Transfer) (q : List Transfer) → count i (emplace t q) ≡ count i (t ∷ q)
count-emplace i t [] = refl
count-emplace i t (u ∷ q) = elim (Bool-cases (leb t.index u.index)) [
  | inl e ↦ rw e refl
  | inr e ↦ rw e (omega (arith, count-emplace i t q))
]

count-emplace_all :
    (i : ℕ) (ts q : List Transfer) → count i (emplace_all ts q) ≡ count i ts + count i q
count-emplace_all i [] q = omega arith
count-emplace_all i (t ∷ ts) q =
    omega (arith, count-emplace_all i ts (emplace t q), count-emplace i t q)

pub count-emplace_msgs :
    (i : ℕ) (ms : List (List Transfer)) (q : List Transfer)
    → count i (emplace_msgs ms q) ≡ count_msgs i ms + count i q
count-emplace_msgs i [] q = omega arith
count-emplace_msgs i (m ∷ ms) q =
    omega (arith, count-emplace_msgs i ms (emplace_all m q), count-emplace_all i m q)

pub count-update :
    (i index : ℕ) (f : Transfer → Transfer) (ts : List Transfer)
    → ((t : Transfer) → (f t).index ≡ t.index)
    → count i (update index f ts) ≡ count i ts
count-update i index f [] h = refl
count-update i index f (t ∷ ts) h = elim (Bool-cases (t.index == index)) [
  | inl e ↦ rw (e, h t) refl
  | inr e ↦ rw (e, count-update i index f ts h) refl
]

pub length-update :
    (index : ℕ) (f : Transfer → Transfer) (ts : List Transfer)
    → length (update index f ts) ≡ length ts
length-update index f [] = refl
length-update index f (t ∷ ts) = elim (Bool-cases (t.index == index)) [
  | inl e ↦ rw e refl
  | inr e ↦ rw (e, length-update index f ts) refl
]

abbrev index_in : Option Transfer → ℕ
index_in none = 0
index_in (some t) = t.index

pub count-without :
    (i index : ℕ) (ts : List Transfer) (t : Transfer)
    → find_slot index ts ≡ some t
    → count i ts ≡ one_if (t.index == i) + count i (without index ts)
count-without i index [] t e = cc
count-without i index (u ∷ ts) t e = elim (Bool-cases (u.index == index)) [
  | inl h ↦
      let same : some u ≡ some t = rw h at e in
      rw h (omega (arith, ap (λ o. one_if (index_in o == i)) same))
  | inr h ↦ rw h (omega (arith, count-without i index ts t (rw h at e)))
]

pub length-without :
    (index : ℕ) (ts : List Transfer) (t : Transfer)
    → find_slot index ts ≡ some t
    → length ts ≡ suc (length (without index ts))
length-without index [] t e = cc
length-without index (u ∷ ts) t e = elim (Bool-cases (u.index == index)) [
  | inl h ↦ rw h refl
  | inr h ↦ rw (h, length-without index ts t (rw h at e)) refl
]

pub find_slot-none :
    (index : ℕ) (ts : List Transfer) → count index ts ≡ 0 → find_slot index ts ≡ none
find_slot-none index [] e = refl
find_slot-none index (t ∷ ts) e = elim (Bool-cases (t.index == index)) [
  | inl h ↦ absurd (ground (arith, ap one_if h))
  | inr h ↦ rw h (find_slot-none index ts (omega arith))
]

pub between_same : (a i : ℕ) → between a a i ≡ 0
between_same a i = ground arith

pub between_step : (a b i : ℕ) → a < b → between a b i ≡ one_if (a == i) + between (a + 1) b i
between_step a b i h = ground arith

pub between_end : (a b : ℕ) → between a b b ≡ 0
between_end a b = ground arith

pub between_in : (a b i : ℕ) → a ≤ i → i < b → between a b i ≡ 1
between_in a b i lo hi = ground arith

pub between_split : (a b c i : ℕ) → a ≤ b → b ≤ c → between a c i ≡ between a b i + between b c i
between_split a b c i h k = ground arith

pub between_beyond : (a b i : ℕ) → b ≤ i → between a b i ≡ 0
between_beyond a b i h = ground arith
