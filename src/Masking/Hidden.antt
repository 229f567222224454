-- ===== src/Masking/Hidden.antt =====
-- What a masked value still shows.
use trustedoss_portal.Prelude.{
  ℕ, zero, suc, ◌≤◌, max, ◌≡◌, refl, ap, inl, inr, true, arith, Bool-cases, Bool, false, ◌&&◌, ◌||◌,
  List, [], ◌∷◌, leb, ◌==◌, ◌+◌, Text, starts_with, any, All,
}
use trustedoss_portal.Json.{
  Json, null, bool, num, str, arr, obj, Items, nil, cons, Fields, end, field,
}
use trustedoss_portal.Masking.{
  redacted, is_sensitive_key, sensitive_tokens, lower, lower_text, occurs_in, mask, mask_items,
  mask_fields, mask_pii,
}

-- The letter `d` of a word, as a key may spell it: itself, or the capital 32 codes before it.
abbrev pub same_letter : ℕ → ℕ → Bool
same_letter d c = (c == d) || (leb 65 c && (leb c 90 && ((c + 32) == d)))

abbrev pub spelled_at : Text → Text → Bool
spelled_at [] key = true
spelled_at (d ∷ word) [] = false
spelled_at (d ∷ word) (c ∷ key) = same_letter d c && spelled_at word key

abbrev pub spelled_in : Text → Text → Bool
spelled_in word [] = spelled_at word []
spelled_in word (c ∷ key) = spelled_at word (c ∷ key) || spelled_in word key

abbrev pub names_secret : Text → Bool
names_secret key = any (λ word. spelled_in word key) sensitive_tokens

-- Every key that spells a sensitive word, at every level, has the redacted value.
abbrev mutual
  pub IsMasked : Json → Type 0
  IsMasked null = Unit {0}
  IsMasked (bool b) = Unit {0}
  IsMasked (num n) = Unit {0}
  IsMasked (str s) = Unit {0}
  IsMasked (arr xs) = AreMasked xs
  IsMasked (obj fs) = AreMaskedFields fs

  pub AreMasked : Items → Type 0
  AreMasked nil = Unit {0}
  AreMasked (cons v vs) = IsMasked v × AreMasked vs

  pub AreMaskedFields : Fields → Type 0
  AreMaskedFields end = Unit {0}
  AreMaskedFields (field k v fs) =
      (names_secret k ≡ true → v ≡ redacted) × (IsMasked v × AreMaskedFields fs)

abbrev is_capital : ℕ → Bool
is_capital c = leb 65 c && leb c 90

same_letter-lower :
    (d c : ℕ) → is_capital d ≡ false → same_letter d c ≡ true → (d == lower c) ≡ true
unfolding lower
same_letter-lower d c plain h = ground arith

spelled_at-lower_text :
    (word key : Text)
    → All (λ d. is_capital d ≡ false) word
    → spelled_at word key ≡ true
    → starts_with word (lower_text key) ≡ true
unfolding lower_text
spelled_at-lower_text [] key plain h = refl
spelled_at-lower_text (d ∷ word) [] plain h = cc h
spelled_at-lower_text (d ∷ word) (c ∷ key) (p, plain) h =
    let same = same_letter-lower d c p (ground (arith, h)) in
    rw same (spelled_at-lower_text word key plain (ground (arith, h)))

spelled_in-lower_text :
    (word key : Text)
    → All (λ d. is_capital d ≡ false) word
    → spelled_in word key ≡ true
    → occurs_in word (lower_text key) ≡ true
unfolding lower_text occurs_in
spelled_in-lower_text word [] plain h = spelled_at-lower_text word [] plain h
spelled_in-lower_text word (c ∷ key) plain h = elim (Bool-cases (spelled_at word (c ∷ key))) [
  | inl here ↦ rw (spelled_at-lower_text word (c ∷ key) plain here) refl
  | inr later ↦
      let rest = spelled_in-lower_text word key plain (rw later at h) in rw rest (ground arith)
]

any_spelled :
    (words : List Text) (key : Text)
    → All (λ word. All (λ d. is_capital d ≡ false) word) words
    → any (λ word. spelled_in word key) words ≡ true
    → any (λ word. occurs_in word (lower_text key)) words ≡ true
any_spelled [] key plain h = h
any_spelled (word ∷ words) key (p, plain) h = elim (Bool-cases (spelled_in word key)) [
  | inl here ↦ rw (spelled_in-lower_text word key p here) refl
  | inr later ↦ let rest = any_spelled words key plain (rw later at h) in rw rest (ground arith)
]

plain_words :
    (words : List Text)
    → any (λ word. any is_capital word) words ≡ false
    → All (λ word. All (λ d. is_capital d ≡ false) word) words
plain_words [] h = tt
plain_words (word ∷ words) h =
    (plain_word word (ground (arith, h)), plain_words words (ground (arith, h)))
  where
    plain_word : (w : Text) → any is_capital w ≡ false → All (λ d. is_capital d ≡ false) w
    plain_word [] k = tt
    plain_word (d ∷ w) k = (ground (arith, k), plain_word w (ground (arith, k)))

names_secret-is_sensitive_key : (key : Text) → names_secret key ≡ true → is_sensitive_key key ≡ true
unfolding is_sensitive_key
names_secret-is_sensitive_key key h =
    any_spelled sensitive_tokens key (plain_words sensitive_tokens refl) h

-- Containers inside one another.
mutual
  pub depth : Json → ℕ
  depth null = 0
  depth (bool b) = 0
  depth (num n) = 0
  depth (str s) = 0
  depth (arr xs) = suc (depth_items xs)
  depth (obj fs) = suc (depth_fields fs)

  pub depth_items : Items → ℕ
  depth_items nil = 0
  depth_items (cons v vs) = max (depth v) (depth_items vs)

  pub depth_fields : Fields → ℕ
  depth_fields end = 0
  depth_fields (field k v fs) = max (depth v) (depth_fields fs)

mutual
  unfolding mask

  mask-IsMasked : (v : Json) (n : ℕ) → IsMasked (mask v n)
  mask-IsMasked null zero = tt
  mask-IsMasked (bool b) zero = tt
  mask-IsMasked (num x) zero = tt
  mask-IsMasked (str s) zero = tt
  mask-IsMasked (arr xs) zero = tt
  mask-IsMasked (obj fs) zero = tt
  mask-IsMasked null (suc n) = tt
  mask-IsMasked (bool b) (suc n) = tt
  mask-IsMasked (num x) (suc n) = tt
  mask-IsMasked (str s) (suc n) = tt
  mask-IsMasked (arr xs) (suc n) = items_masked xs n
  mask-IsMasked (obj fs) (suc n) = fields_masked fs n

  items_masked : (xs : Items) (n : ℕ) → AreMasked (mask_items xs n)
  items_masked nil n = tt
  items_masked (cons v vs) n = (mask-IsMasked v n, items_masked vs n)

  fields_masked : (fs : Fields) (n : ℕ) → AreMaskedFields (mask_fields fs n)
  fields_masked end n = tt
  fields_masked (field k v fs) n = elim (Bool-cases (is_sensitive_key k)) [
    | inl sensitive ↦ rw sensitive (λ _. refl, (tt, fields_masked fs n))
    | inr plain ↦ rw plain (
      λ h. absurd (cc (names_secret-is_sensitive_key k h, plain)),
      (mask-IsMasked v n, fields_masked fs n),
    )
  ]

mutual
  unfolding mask depth

  mask-depth : (v : Json) (n : ℕ) → depth (mask v n) ≤ n
  mask-depth null zero = omega arith
  mask-depth (bool b) zero = omega arith
  mask-depth (num x) zero = omega arith
  mask-depth (str s) zero = omega arith
  mask-depth (arr xs) zero = omega arith
  mask-depth (obj fs) zero = omega arith
  mask-depth null (suc n) = omega arith
  mask-depth (bool b) (suc n) = omega arith
  mask-depth (num x) (suc n) = omega arith
  mask-depth (str s) (suc n) = omega arith
  mask-depth (arr xs) (suc n) = omega (arith, items-depth xs n)
  mask-depth (obj fs) (suc n) = omega (arith, fields-depth fs n)

  items-depth : (xs : Items) (n : ℕ) → depth_items (mask_items xs n) ≤ n
  items-depth nil n = omega arith
  items-depth (cons v vs) n = omega (arith, mask-depth v n, items-depth vs n)

  fields-depth : (fs : Fields) (n : ℕ) → depth_fields (mask_fields fs n) ≤ n
  fields-depth end n = omega arith
  fields-depth (field k v fs) n = elim (Bool-cases (is_sensitive_key k)) [
    | inl sensitive ↦ rw sensitive (omega (arith, fields-depth fs n))
    | inr plain ↦ rw plain (omega (arith, mask-depth v n, fields-depth fs n))
  ]

mutual
  unfolding mask

  mask_idem : (v : Json) (n : ℕ) → mask (mask v n) n ≡ mask v n
  mask_idem null zero = refl
  mask_idem (bool b) zero = refl
  mask_idem (num x) zero = refl
  mask_idem (str s) zero = refl
  mask_idem (arr xs) zero = refl
  mask_idem (obj fs) zero = refl
  mask_idem null (suc n) = refl
  mask_idem (bool b) (suc n) = refl
  mask_idem (num x) (suc n) = refl
  mask_idem (str s) (suc n) = refl
  mask_idem (arr xs) (suc n) = ap (λ ys. arr ys) (items_idem xs n)
  mask_idem (obj fs) (suc n) = ap (λ gs. obj gs) (fields_idem fs n)

  items_idem : (xs : Items) (n : ℕ) → mask_items (mask_items xs n) n ≡ mask_items xs n
  items_idem nil n = refl
  items_idem (cons v vs) n = rw (mask_idem v n, items_idem vs n)

  fields_idem : (fs : Fields) (n : ℕ) → mask_fields (mask_fields fs n) n ≡ mask_fields fs n
  fields_idem end n = refl
  fields_idem (field k v fs) n = elim (Bool-cases (is_sensitive_key k)) [
    | inl sensitive ↦ rw sensitive (rw (fields_idem fs n) refl)
    | inr plain ↦ rw plain (rw (mask_idem v n, fields_idem fs n) refl)
  ]

-- In a masked value every key that contains a sensitive word, each letter small or capital, and at whatever level, has the value `***`; containers nest at most 33 deep; and masking the value again changes nothing. This holds for every value, however deep.
pub mask_pii-IsMasked :
    (v : Json)
    → IsMasked (mask_pii v) × (depth (mask_pii v) ≤ 33) × (mask_pii (mask_pii v) ≡ mask_pii v)
unfolding mask_pii
mask_pii-IsMasked v = (mask-IsMasked v 33, mask-depth v 33, mask_idem v 33)
