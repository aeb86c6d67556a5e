-- ===== src/Temporal/Text/Cuts.antt =====
-- What slices, searches and splits return on texts of known parts.
use graphdblite.Base.{
  ℕ, zero, suc, ◌-◌, ◌<◌, ◌≤◌, true, false, [], ◌∷◌, ◌++◌, none, some, length, take, drop, contains,
  contains-append, All, ◌≡◌, refl, ap, ◌∙◌, Bool-cases, inl, inr, ◌==◌, Bytes, arith,
}
use graphdblite.Temporal.Outcome.{ok}
use graphdblite.Temporal.Text.Numbers.{IsDigit}
use graphdblite.Temporal.Text.{
  splitn, slice, starts_char, cut, rcut, split_at, trimmed, trim_end_matches, replicate, is_digit,
}

abbrev pub IsAscii : Bytes → Type 0
IsAscii s = All (λ c. c < 128) s

abbrev pub Avoids : ℕ → Bytes → Type 0
Avoids c s = All (λ x. (x == c) ≡ false) s

pub All-map {ℓ κ} :
    (P : ℕ → Type ℓ) (Q : ℕ → Type κ) → ((x : ℕ) → P x → Q x) → (s : Bytes) → All P s → All Q s
All-map P Q f [] h = tt
All-map P Q f (x ∷ xs) (p, h) = (f x p, All-map P Q f xs h)

pub digits-Avoids : (c : ℕ) → is_digit c ≡ false → (s : Bytes) → All IsDigit s → Avoids c s
digits-Avoids c other s h = All-map IsDigit (λ x. (x == c) ≡ false) (λ x hx. ground arith) s h

pub digits-IsAscii : (s : Bytes) → All IsDigit s → IsAscii s
digits-IsAscii s h = All-map IsDigit (λ c. c < 128) (λ x hx. omega arith) s h

drop-starts_char : (i : ℕ) (s : Bytes) → IsAscii s → starts_char (drop i s) ≡ true
drop-starts_char zero [] h = refl
drop-starts_char zero (c ∷ s) (hc, h) = ground arith
drop-starts_char (suc i) [] h = refl
drop-starts_char (suc i) (c ∷ s) (hc, h) = drop-starts_char i s h

-- On ASCII texts a slice within the bounds does not panic.
pub slice_ascii :
    (a b : ℕ) (s : Bytes)
    → IsAscii s
    → a ≤ b
    → b ≤ length s
    → slice a b s ≡ ok (take (b - a) (drop a s))
unfolding slice
slice_ascii a b s h ab bn = ground (arith, drop-starts_char a s h, drop-starts_char b s h)

pub cut-none : (c : ℕ) (s : Bytes) → Avoids c s → cut c s ≡ none
cut-none c [] h = refl
cut-none c (x ∷ xs) (hx, h) = rw (hx, cut-none c xs h) refl

pub cut-append : (c : ℕ) (xs ys : Bytes) → Avoids c xs → cut c (xs ++ c ∷ ys) ≡ some (xs, ys)
cut-append c [] ys h = ground arith
cut-append c (x ∷ xs) ys (hx, h) = rw (hx, cut-append c xs ys h) refl

pub rcut-none : (c : ℕ) (s : Bytes) → Avoids c s → rcut c s ≡ none
rcut-none c [] h = refl
rcut-none c (x ∷ xs) (hx, h) = rw (hx, rcut-none c xs h) refl

pub rcut-append : (c : ℕ) (xs ys : Bytes) → Avoids c ys → rcut c (xs ++ c ∷ ys) ≡ some (xs, ys)
rcut-append c [] ys h =
    let same : (c == c) ≡ true = ground arith in rw (rcut-none c ys h, same) refl
rcut-append c (x ∷ xs) ys h = rw (rcut-append c xs ys h) refl

pub split_at-one : (c : ℕ) (s : Bytes) → Avoids c s → split_at c s ≡ s ∷ []
split_at-one c [] h = refl
split_at-one c (x ∷ xs) (hx, h) = rw (hx, split_at-one c xs h) refl

pub split_at-append :
    (c : ℕ) (xs ys : Bytes) → Avoids c xs → split_at c (xs ++ c ∷ ys) ≡ xs ∷ split_at c ys
split_at-append c [] ys h = ground arith
split_at-append c (x ∷ xs) ys (hx, h) = rw (hx, split_at-append c xs ys h) refl

pub contains-none : (c : ℕ) (s : Bytes) → Avoids c s → contains s c ≡ false
contains-none c [] h = refl
contains-none c (x ∷ xs) (hx, h) = rw (hx, contains-none c xs h) refl

pub contains-middle : (c : ℕ) (xs ys : Bytes) → contains (xs ++ c ∷ ys) c ≡ true
contains-middle c xs ys = ground (arith, contains-append xs (c ∷ ys) c)

trimmed-append :
    (c x : ℕ) (ys zs : Bytes)
    → ys ++ replicate (length zs - length ys) c ≡ zs
    → length ys ≤ length zs
    → (trimmed c x ys ++ replicate (suc (length zs) - length (trimmed c x ys)) c ≡ x ∷ zs)
      × (length (trimmed c x ys) ≤ suc (length zs))
trimmed-append c x [] zs e le = elim (Bool-cases (x == c)) [
  | inl h ↦ rw h (ground arith, omega arith)
  | inr h ↦ rw h (ground (arith, e), omega arith)
]
trimmed-append c x (y ∷ ys) zs e le =
    let same : suc (length zs) - suc (length (y ∷ ys)) ≡ length zs - length (y ∷ ys) =
      omega arith in
    (rw same (ap (λ (l : Bytes). x ∷ l) e), omega arith)

trim_end_lem :
    (c : ℕ) (s : Bytes)
    → (trim_end_matches c s ++ replicate (length s - length (trim_end_matches c s)) c ≡ s)
      × (length (trim_end_matches c s) ≤ length s)
trim_end_lem c [] = (refl, omega arith)
trim_end_lem c (x ∷ xs) =
    let (e, le) = trim_end_lem c xs in trimmed-append c x (trim_end_matches c xs) xs e le

-- What is trimmed off a text can be put back.
pub trim_end_matches-replicate :
    (c : ℕ) (s : Bytes)
    → trim_end_matches c s ++ replicate (length s - length (trim_end_matches c s)) c ≡ s
trim_end_matches-replicate c s = (trim_end_lem c s).0

trimmed-All {κ} : (P : ℕ → Type κ) (c x : ℕ) (ys : Bytes) → P x → All P ys → All P (trimmed c x ys)
trimmed-All P c x [] p h = elim (Bool-cases (x == c)) [ inl e ↦ rw e tt | inr e ↦ rw e (p, tt) ]
trimmed-All P c x (y ∷ ys) p h = (p, h)

pub trim_end_matches-All {κ} :
    (P : ℕ → Type κ) (c : ℕ) (s : Bytes) → All P s → All P (trim_end_matches c s)
trim_end_matches-All P c [] h = tt
trim_end_matches-All P c (x ∷ xs) (p, h) =
    trimmed-All P c x (trim_end_matches c xs) p (trim_end_matches-All P c xs h)

pub take-length : (s : Bytes) → take (length s) s ≡ s
take-length [] = refl
take-length (c ∷ s) = ap (λ (l : Bytes). c ∷ l) (take-length s)

-- All but the first byte.
pub slice_rest : (c : ℕ) (s : Bytes) → c < 128 → IsAscii s → slice 1 (suc (length s)) (c ∷ s) ≡ ok s
slice_rest c s hc h =
    let n : suc (length s) - 1 ≡ length s = omega arith in
    slice_ascii 1 (suc (length s)) (c ∷ s) (hc, h) (omega arith) (omega arith)
    ∙ rw (n, take-length s) refl

pub splitn-append :
    (n c : ℕ) (xs ys : Bytes)
    → Avoids c xs
    → splitn (suc (suc n)) c (xs ++ c ∷ ys) ≡ xs ∷ splitn (suc n) c ys
splitn-append n c xs ys h = rw (splitn, cut-append c xs ys h) refl

pub splitn-none : (n c : ℕ) (s : Bytes) → Avoids c s → splitn (suc (suc n)) c s ≡ s ∷ []
splitn-none n c s h = rw (splitn, cut-none c s h) refl
