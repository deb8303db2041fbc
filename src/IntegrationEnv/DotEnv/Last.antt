-- ===== src/IntegrationEnv/DotEnv/Last.antt =====
-- What readDotEnv of internal/testutil/integrationenv/env.go makes of the lines of a file.
use platform_mihomo_service.Base.{
  String, Option, none, some, ◌==◌, if◌then◌else◌, List, [], ◌∷◌, All, ◌≡◌, ◌≢◌, ◌∙◌, refl, ap,
  Bool-cases, inl, inr,
}
use platform_mihomo_service.IntegrationEnv.Defs.{EnvError, done, Table, get, put, Host, contents}
use platform_mihomo_service.IntegrationEnv.DotEnv.{
  Line, skip, assign, refuse, read_line, read_lines, read_dot_env, split_lines,
}

-- The value that a line gives a key.
abbrev pub given : String → Line → Option String
given key skip = none
given key (assign k value) = if k == key then some value else none
given key (refuse e) = none

abbrev pub or_else : Option String → Option String → Option String
or_else none other = other
or_else (some a) other = some a

-- The value of the last line that gives the key one.
abbrev pub last_given : String → String → List String → Option String
last_given path key [] = none
last_given path key (l ∷ ls) = or_else (last_given path key ls) (given key (read_line path l))

-- The line is no error.
abbrev pub IsAccepted : String → String → Type 0
IsAccepted path l = (e : EnvError) → read_line path l ≢ refuse e

or_else-none : (o : Option String) → or_else o none ≡ o
or_else-none none = refl
or_else-none (some a) = refl

or_else_assoc : (a b c : Option String) → or_else (or_else a b) c ≡ or_else a (or_else b c)
or_else_assoc none b c = refl
or_else_assoc (some a) b c = refl

get-put :
    (key k v : String) (values : Table String)
    → get key (put k v values) ≡ or_else (given key (assign k v)) (get key values)
get-put key k v values = elim (Bool-cases (k == key)) [ inl e ↦ rw e refl | inr e ↦ rw e refl ]

read_lines-from :
    (path key : String) (ls : List String) (values result : Table String)
    → read_lines path ls values ≡ done result
    → All (IsAccepted path) ls
      × (get key result ≡ or_else (last_given path key ls) (get key values))
unfolding read_lines
read_lines-from path key [] values result h =
    let same : values ≡ result = cc h in (tt, cc (ap (get key) same))
read_lines-from path key (l ∷ ls) values result h =
    go (read_line path l) refl (λ v. read_lines-from path key ls v result)
  where
    Claim : Table String → Type 0
    Claim v =
        All (IsAccepted path) ls × (get key result ≡ or_else (last_given path key ls) (get key v))

    go :
        (r : Line)
        → read_line path l ≡ r
        → ((v : Table String) → read_lines path ls v ≡ done result → Claim v)
        → All (IsAccepted path) (l ∷ ls)
          × (get key result ≡ or_else (last_given path key (l ∷ ls)) (get key values))
    go skip e rest =
        let (all, last) = rest values (rw (e, read_lines) at h) in
        (
          (λ f k. absurd (cc (e, k)), all),
          rw (e, given, or_else-none (last_given path key ls)) last,
        )
    go (assign k v) e rest =
        let (all, last) = rest (put k v values) (rw (e, read_lines) at h) in
        (
          (λ f r. absurd (cc (e, r)), all),
          rw (e, or_else_assoc (last_given path key ls) (given key (assign k v)) (get key values))
              (last ∙ ap (or_else (last_given path key ls)) (get-put key k v values)),
        )
    go (refuse f) e rest = absurd (cc (rw (e, read_lines) at h))

-- A file that is read has a line of no other kind than blank ones, comments and assignments, and
-- the value of each key is that of the last line that assigns it one.
pub read_dot_env-last_given :
    (host : Host) (path text key : String) (values : Table String)
    → host.read_file path ≡ contents text
    → read_dot_env host path ≡ done values
    → All (IsAccepted path) (split_lines text)
      × (get key values ≡ last_given path key (split_lines text))
unfolding read_dot_env
read_dot_env-last_given host path text key values f h =
    let (all, last) =
      read_lines-from path key (split_lines text) [] values (rw (f, read_dot_env) at h) in
    (all, last ∙ or_else-none (last_given path key (split_lines text)))

read_lines_of_IsAccepted :
    (path : String) (ls : List String) (values : Table String)
    → All (IsAccepted path) ls
    → (result : Table String) × (read_lines path ls values ≡ done result)
unfolding read_lines
read_lines_of_IsAccepted path [] values h = (values, refl)
read_lines_of_IsAccepted path (l ∷ ls) values (h, all) =
    go (read_line path l) refl (λ v. read_lines_of_IsAccepted path ls v all)
  where
    go :
        (r : Line)
        → read_line path l ≡ r
        → ((v : Table String) → (result : Table String) × (read_lines path ls v ≡ done result))
        → (result : Table String) × (read_lines path (l ∷ ls) values ≡ done result)
    go skip e rest = let (t, k) = rest values in (t, rw (e, read_lines) k)
    go (assign k v) e rest = let (t, j) = rest (put k v values) in (t, rw (e, read_lines) j)
    go (refuse f) e rest = absurd (h f e)

-- A file without a wrong line is read.
pub read_dot_env_of_IsAccepted :
    (host : Host) (path text : String)
    → host.read_file path ≡ contents text
    → All (IsAccepted path) (split_lines text)
    → (values : Table String) × (read_dot_env host path ≡ done values)
unfolding read_dot_env
read_dot_env_of_IsAccepted host path text f all =
    let (t, k) = read_lines_of_IsAccepted path (split_lines text) [] all in
    (t, rw (f, read_dot_env) k)
