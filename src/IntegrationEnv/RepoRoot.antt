-- ===== src/IntegrationEnv/RepoRoot.antt =====
-- FindRepoRoot, isRepoRoot and fileExists of internal/testutil/integrationenv/env.go.
pub mod Nearest
use Prim.Native.String.{[], ◌∷◌, ◌++◌}
use platform_mihomo_service.Base.{
  ℕ, zero, suc, ◌+◌, Char, String, Option, none, some, Bool, true, false, ◌==◌, if◌then◌else◌,
}
use platform_mihomo_service.IntegrationEnv.Text.{size, same_char}
use platform_mihomo_service.IntegrationEnv.Defs.{
  Checked, done, failed, Host, no_start_path, no_repo_root,
}
use platform_mihomo_service.IntegrationEnv.Settings.{join}

abbrev pub prepend : Char → Option String → Option String
prepend c none = none
prepend c (some s) = some (c ∷ s)

-- `s[:strings.LastIndexByte(s, '/')]`, if the byte is there.
unfoldable pub before_last_slash : String → Option String
before_last_slash [] = none
before_last_slash (c ∷ s) = elim (before_last_slash s) [
  | some t ↦ some (c ∷ t)
  | none ↦ if same_char "/" c then some [] else none
]

-- `filepath.Dir(path)` of a clean path.
unfoldable pub dir : String → String
unfolding before_last_slash
dir path = elim (before_last_slash path) [ none ↦ "." | some t ↦ if t == "" then "/" else t ]

unfoldable pub is_repo_root : Host → String → Bool
unfolding join
is_repo_root host path = host.is_regular (join path "go.mod")

-- The `for` loop, for a number of rounds; `none` where they are not enough.
unfoldable pub search_root : Host → ℕ → String → Option (Checked String)
unfolding is_repo_root dir
search_root host zero current = none
search_root host (suc rounds) current = elim (is_repo_root host current) [
  | true ↦ some (done current)
  | false ↦ elim (dir current == current) [
    | true ↦ some (failed no_repo_root)
    | false ↦ search_root host rounds (dir current)
  ]
]

-- The rounds that `search_root` is given.
abbrev pub enough_rounds : String → ℕ
enough_rounds path = size path + 2

unfoldable pub find_repo_root : Host → String → Option (Checked String)
unfolding search_root
find_repo_root host start = elim (host.abs start) [
  | none ↦ some (failed no_start_path)
  | some current ↦ search_root host (enough_rounds current) current
]
