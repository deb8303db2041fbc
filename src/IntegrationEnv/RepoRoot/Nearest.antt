-- ===== src/IntegrationEnv/RepoRoot/Nearest.antt =====
-- That FindRepoRoot of internal/testutil/integrationenv/env.go ends, and with which directory.
use Prim.Native.String.{[], ◌∷◌}
use platform_mihomo_service.Base.{
  ℕ, zero, suc, ◌+◌, ◌<◌, String, Option, none, some, true, false, ◌==◌, eq_iff, ◌≡◌, ◌∙◌, ap, refl,
  ◌⊎◌, inl, inr, arith, Bool-cases,
}
use platform_mihomo_service.IntegrationEnv.Text.{size, same_char}
use platform_mihomo_service.IntegrationEnv.Defs.{Checked, done, failed, Host, no_repo_root}
use platform_mihomo_service.IntegrationEnv.RepoRoot.{
  before_last_slash, dir, is_repo_root, search_root, enough_rounds, find_repo_root,
}

-- The directory n steps up.
abbrev pub up : ℕ → String → String
up zero path = path
up (suc n) path = up n (dir path)

-- The nearest directory at or above `path` that holds a go.mod.
abbrev pub IsNearest : Host → String → String → Type 0
IsNearest host path root =
    (n : ℕ) × (root ≡ up n path)
    × (is_repo_root host root ≡ true)
    × ((m : ℕ) → m < n → is_repo_root host (up m path) ≡ false)

-- No directory at or above `path` holds one.
abbrev pub HasNone : Host → String → Type 0
HasNone host path = (n : ℕ) → is_repo_root host (up n path) ≡ false

-- What a search gives: the nearest directory, or an error where there is none.
abbrev pub Settles : Host → String → Option (Checked String) → Type 0
Settles host path result =
    ((root : String) × (result ≡ some (done root)) × IsNearest host path root)
    ⊎ ((result ≡ some (failed no_repo_root)) × HasNone host path)

size-before_last_slash : (s t : String) → before_last_slash s ≡ some t → size t < size s
unfolding before_last_slash
size-before_last_slash [] t h = absurd (cc h)
size-before_last_slash (c ∷ s) t h = go (before_last_slash s) refl (size-before_last_slash s)
  where
    go :
        (o : Option String)
        → before_last_slash s ≡ o
        → ((u : String) → before_last_slash s ≡ some u → size u < size s)
        → size t < size (c ∷ s)
    go (some u) e less =
        let same : c ∷ u ≡ t = cc (rw (e, before_last_slash) at h) in
        let sizes : suc (size u) ≡ size t = ap size same in
        let rest : size u < size s = less u e in omega arith
    go none e less = elim (Bool-cases (same_char "/" c)) [
      | inl slash ↦
          let same : [] ≡ t = cc (rw (e, slash, before_last_slash) at h) in
          let sizes : 0 ≡ size t = ap size same in omega arith
      | inr other ↦ absurd (cc (rw (e, other, before_last_slash) at h))
    ]

-- A directory is its own parent, or shorter than what it holds, or one of the two tops.
dir-cases : (path : String) → (size (dir path) < size path) ⊎ (dir path ≡ "/") ⊎ (dir path ≡ ".")
unfolding dir
dir-cases path = go (before_last_slash path) refl
  where
    go :
        (o : Option String)
        → before_last_slash path ≡ o
        → (size (dir path) < size path) ⊎ (dir path ≡ "/") ⊎ (dir path ≡ ".")
    go none e = inr (inr (rw (e, dir) refl))
    go (some t) e = elim (Bool-cases (t == "")) [
      | inl empty ↦ inr (inl (rw (e, empty, dir) refl))
      | inr more ↦ inl (rw (e, more, dir) (size-before_last_slash path t e))
    ]

up-fixed : (path : String) → dir path ≡ path → (n : ℕ) → up n path ≡ path
up-fixed path h zero = refl
up-fixed path h (suc n) = ap (up n) h ∙ up-fixed path h n

module _ (host : Host) where
  -- At a directory that is its own parent, one round is enough.
  search_root_at_top :
      (rounds : ℕ) (path : String)
      → dir path ≡ path
      → Settles host path (search_root host (suc rounds) path)
  unfolding search_root
  search_root_at_top rounds path h = elim (Bool-cases (is_repo_root host path)) [
    | inl found ↦
        inl (path, rw (found, search_root) refl, (zero, refl, found, λ m k. absurd (omega arith)))
    | inr other ↦
        let fixed : (dir path == path) ≡ true = (eq_iff (dir path) path).1 h in
        inr (
          rw (other, fixed, search_root) refl,
          λ n. ap (is_repo_root host) (up-fixed path h n) ∙ other,
        )
  ]

  HasNone-below :
      (path : String) → is_repo_root host path ≡ false → HasNone host (dir path) → HasNone host path
  HasNone-below path other none_above zero = other
  HasNone-below path other none_above (suc n) = none_above n

  none_before :
      (path : String) (n : ℕ)
      → is_repo_root host path ≡ false
      → ((m : ℕ) → m < n → is_repo_root host (up m (dir path)) ≡ false)
      → (m : ℕ) → m < suc n
      → is_repo_root host (up m path) ≡ false
  none_before path n other before zero k = other
  none_before path n other before (suc m) k = before m (omega arith)

  Settles-below :
      (path : String) (result : Option (Checked String))
      → is_repo_root host path ≡ false
      → Settles host (dir path) result
      → Settles host path result
  Settles-below path result other (inl (root, e, (n, above, found, before))) =
      inl (root, e, (suc n, above, found, none_before path n other before))
  Settles-below path result other (inr (e, none_above)) =
      inr (e, HasNone-below path other none_above)

  search_root-Settles :
      (rounds : ℕ) (path : String)
      → size path + 1 < rounds
      → Settles host path (search_root host rounds path)
  unfolding search_root
  search_root-Settles zero path h = absurd (omega arith)
  search_root-Settles (suc zero) path h = absurd (omega arith)
  search_root-Settles (suc (suc rounds)) path h = elim (Bool-cases (is_repo_root host path)) [
    | inl found ↦
        inl (path, rw (found, search_root) refl, (zero, refl, found, λ m k. absurd (omega arith)))
    | inr other ↦ elim (Bool-cases (dir path == path)) [
      | inl fixed ↦ search_root_at_top (suc rounds) path ((eq_iff (dir path) path).0 fixed)
      | inr moves ↦
          rw (other, moves, search_root)
            (Settles-below path (search_root host (suc rounds) (dir path)) other
              (elim (dir-cases path) [
                | inl less ↦ search_root-Settles (suc rounds) (dir path) (omega arith)
                | inr (inl e) ↦ rw e (search_root_at_top rounds "/" refl)
                | inr (inr e) ↦ rw e (search_root_at_top rounds "." refl)
              ]))
    ]
  ]

-- The search for the root ends within the rounds that it is given: with the nearest directory that
-- holds a go.mod, or with an error where no directory above holds one.
pub find_repo_root-Settles :
    (host : Host) (start path : String)
    → host.abs start ≡ some path
    → Settles host path (find_repo_root host start)
unfolding find_repo_root
find_repo_root-Settles host start path h =
    rw (h, find_repo_root) (search_root-Settles host (enough_rounds path) path (omega arith))
