-- ===== src/Webhooks/Lookup.antt =====
-- Which project a repository URL finds.
use mathlib.Core.Path.{subst}
use trustedoss_portal.Prelude.{
  ℕ, ◌≡◌, refl, ap, inl, inr, Bool, true, false, Option, none, some, [], ◌∷◌, ◌++◌, ◌==◌, arith,
  Bool-cases, some_inj, Text, text_eq_sound, find_by-holds, any, strip,
}
use trustedoss_portal.Model.{Provider, Project, Database}
use trustedoss_portal.Webhooks.Payload.{
  push_slash, strip_slashes, cut_suffix, is_control, normalize_repo_url, git_suffix,
}
use trustedoss_portal.Webhooks.Acceptance.{
  is_url, matches_url, find_canonical, find_project_by_git_url,
}

-- `s.endswith("/")`
abbrev pub last_is : ℕ → Text → Bool
last_is c [] = false
last_is c (x ∷ []) = x == c
last_is c (x ∷ y ∷ s) = last_is c (y ∷ s)

push_slash-last :
    (c : ℕ) (t : Text) → last_is b'/' t ≡ false → last_is b'/' (push_slash c t) ≡ false
unfolding push_slash
push_slash-last c [] h = elim (Bool-cases (c == b'/')) [
  | inl slash ↦ rw slash refl
  | inr other ↦ rw other other
]
push_slash-last c (d ∷ t) h = h

strip_slashes-last : (s : Text) → last_is b'/' (strip_slashes s) ≡ false
unfolding strip_slashes
strip_slashes-last [] = refl
strip_slashes-last (c ∷ s) = push_slash-last c (strip_slashes s) (strip_slashes-last s)

suffix-last : (s : Text) → last_is b'/' (s ++ git_suffix) ≡ false
suffix-last [] = refl
suffix-last (c ∷ []) = refl
suffix-last (c ∷ d ∷ s) = suffix-last (d ∷ s)

normalize-last :
    (url canonical : Text)
    → normalize_repo_url url ≡ some canonical
    → last_is b'/' canonical ≡ false
unfolding normalize_repo_url
normalize-last [] canonical h = absurd (cc h)
normalize-last (c ∷ s) canonical h = elim (Bool-cases (any is_control (strip (c ∷ s)))) [
  | inl bad ↦ absurd (cc (rw bad at h))
  | inr clean ↦
      subst (λ (t : Text). last_is b'/' t ≡ false) (some_inj (rw clean at h))
        (strip_slashes-last (cut_suffix (strip (c ∷ s))))
]

is_url_sound : (o : Option Text) (url : Text) → is_url o url ≡ true → o ≡ some url
is_url_sound none url h = absurd (cc h)
is_url_sound (some u) url h = ap (λ t. some t) (text_eq_sound u url h)

matches_url-last :
    (provider : Provider) (canonical : Text) (p : Project)
    → last_is b'/' canonical ≡ false
    → matches_url provider canonical p ≡ true
    → (u : Text) × (p.git_url ≡ some u) × (last_is b'/' u ≡ false)
unfolding matches_url
matches_url-last provider canonical p clean h = elim (Bool-cases (is_url p.git_url canonical)) [
  | inl plain ↦ (canonical, is_url_sound p.git_url canonical plain, clean)
  | inr other ↦ (
    canonical ++ git_suffix,
    is_url_sound p.git_url (canonical ++ git_suffix) (ground (arith, h, other)),
    suffix-last canonical,
  )
]

find_canonical-last :
    (seen : Database) (provider : Provider) (o : Option Text) (p : Project)
    → ((canonical : Text) → o ≡ some canonical → last_is b'/' canonical ≡ false)
    → find_canonical seen provider o ≡ some p
    → (u : Text) × (p.git_url ≡ some u) × (last_is b'/' u ≡ false)
find_canonical-last seen provider none p clean found = absurd (cc found)
find_canonical-last seen provider (some canonical) p clean found =
    matches_url-last provider canonical p (clean canonical refl)
      (find_by-holds (matches_url provider canonical) seen.projects p found)

-- A project that a repository URL finds is registered under a URL that does not end in a slash: one that was registered with a slash at its end receives no webhook, whichever form of its URL a payload carries.
pub find_project_by_git_url-last :
    (seen : Database) (provider : Provider) (repo_url : Text) (p : Project)
    → find_project_by_git_url seen provider repo_url ≡ some p
    → (u : Text) × (p.git_url ≡ some u) × (last_is b'/' u ≡ false)
unfolding find_project_by_git_url
find_project_by_git_url-last seen provider repo_url p found =
    find_canonical-last seen provider (normalize_repo_url repo_url) p (normalize-last repo_url)
      found
