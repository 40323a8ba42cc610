-- ===== src/Server.antt =====
-- `create_dir` of trunk/daemon/main.c, which makes the shared folder with all folders above it.
use pire2pire.Base.{
  ℕ, ◌≡◌, refl, sym, ap, subst, Bool, true, false, ◌||◌, Bool-cases, inl, inr, ◌⊎◌, Option, none,
  some, List, [], ◌∷◌, ◌++◌, Bytes, ◌==◌, if◌then◌else◌, str_eq, str_eq_refl, All, arith,
}

-- `present` says which folders there are, and `may` which can be made.
pub record Files : Type 0 where
  pub present : Bytes → Bool
  pub may : Bytes → Bool

pub record Made : Type 0 where
  pub files : Files
  pub succeeds : Bool

-- `mkdir (path, mode) < 0 && errno != EEXIST` is a failure.
pub mkdir : Files → Bytes → Made
mkdir fs path =
    if fs.present path
    then record { files = fs; succeeds = true }
    else if fs.may path
    then record {
      files = record fs { present = λ p. if str_eq p path then true else fs.present p };
      succeeds = true;
    }
    else record { files = fs; succeeds = false }

-- The loop over `last_slash`; `front` is what stands before the search.
create_from : Files → Bytes → Bytes → Made
unfolding mkdir
create_from fs front [] = mkdir fs front
create_from fs front (c ∷ rest) =
    let made = mkdir fs front in
    let below = create_from made.files (front ++ c ∷ []) rest in
    let more = create_from fs (front ++ c ∷ []) rest in
    if c == b'/' then (if made.succeeds then below else made) else more

-- The search starts at the second byte; for an empty path it starts behind the NUL: `none`.
pub create_dir : Files → Bytes → Option Made
unfolding create_from
create_dir fs [] = none
create_dir fs (c ∷ path) = some (create_from fs (c ∷ []) path)

-- The path up to each slash behind its first byte, and the whole path.
pub folders : Bytes → Bytes → List Bytes
folders front [] = front ∷ []
folders front (c ∷ rest) =
    if c == b'/' then front ∷ folders (front ++ c ∷ []) rest else folders (front ++ c ∷ []) rest

pub any_is : Bytes → List Bytes → Bool
any_is p [] = false
any_is p (q ∷ qs) = str_eq p q || any_is p qs

-- Nothing vanishes, and only the paths listed may be new.
pub record Grows (fs fs' : Files) (ps : List Bytes) : Type 0 where
  pub stays : (p : Bytes) → fs.present p ≡ true → fs'.present p ≡ true
  pub only : (p : Bytes) → any_is p ps ≡ false → fs'.present p ≡ fs.present p
  pub same : (p : Bytes) → fs'.may p ≡ fs.may p

mkdir-Grows : (fs : Files) (path : Bytes) → Grows fs (mkdir fs path).files (path ∷ [])
unfolding mkdir any_is
mkdir-Grows fs path = record {
  stays = λ p h. ground (arith, h);
  only = λ p h. ground (arith, h);
  same = λ p. ground arith;
}

mkdir-present :
    (fs : Files) (path : Bytes)
    → (mkdir fs path).succeeds ≡ true
    → (mkdir fs path).files.present path ≡ true
unfolding mkdir
mkdir-present fs path h = ground (arith, h, str_eq_refl path)

abbrev Creates : Files → Made → List Bytes → Type 0
Creates fs m ps = Grows fs m.files ps × (m.succeeds ≡ true → All (λ p. m.files.present p ≡ true) ps)

below-Creates :
    (fs : Files) (front : Bytes) (m : Made) (ps : List Bytes)
    → (mkdir fs front).succeeds ≡ true
    → Creates (mkdir fs front).files m ps
    → Creates fs m (front ∷ ps)
unfolding any_is
below-Creates fs front m ps s (g, a) =
    let first = mkdir-Grows fs front in
    (
      record {
        stays = λ p h. g.stays p (first.stays p h);
        only = λ p h. ground (arith, h, g.only p, first.only p);
        same = λ p. ground (arith, g.same p, first.same p);
      },
      λ h. (g.stays front (mkdir-present fs front s), a h),
    )

Creates-same :
    (fs : Files) (m m' : Made) (ps ps' : List Bytes)
    → m ≡ m'
    → ps ≡ ps'
    → Creates fs m' ps'
    → Creates fs m ps
Creates-same fs m m' ps ps' e e' h =
    subst (λ n. Creates fs n ps) (sym e) (subst (Creates fs m') (sym e') h)

stopped-Creates :
    (fs : Files) (front : Bytes) (ps : List Bytes)
    → (mkdir fs front).succeeds ≡ false
    → Creates fs (mkdir fs front) (front ∷ ps)
unfolding any_is
stopped-Creates fs front ps s =
    let first = mkdir-Grows fs front in
    (
      record {
        stays = first.stays;
        only = λ p h. first.only p (ground (arith, h));
        same = first.same;
      },
      λ h. absurd (ground (arith, s, h)),
    )

folders-slash :
    (front rest : Bytes) (c : ℕ)
    → (c == b'/') ≡ true
    → folders front (c ∷ rest) ≡ front ∷ folders (front ++ c ∷ []) rest
unfolding folders
folders-slash front rest c e = rw e refl

create_from-slash :
    (fs : Files) (front rest : Bytes) (c : ℕ)
    → (c == b'/') ≡ true
    → (mkdir fs front).succeeds ≡ true
    → create_from fs front (c ∷ rest) ≡ create_from (mkdir fs front).files (front ++ c ∷ []) rest
unfolding create_from
create_from-slash fs front rest c e s = rw (e, s) refl

create_from-stop :
    (fs : Files) (front rest : Bytes) (c : ℕ)
    → (c == b'/') ≡ true
    → (mkdir fs front).succeeds ≡ false
    → create_from fs front (c ∷ rest) ≡ mkdir fs front
unfolding create_from
create_from-stop fs front rest c e s = rw e (
    ap
      (λ b. if b then create_from (mkdir fs front).files (front ++ c ∷ []) rest else mkdir fs front)
      s)

create_from-Creates :
    (fs : Files) (front rest : Bytes) → Creates fs (create_from fs front rest) (folders front rest)
unfolding create_from folders
create_from-Creates fs front [] = (mkdir-Grows fs front, λ h. (mkdir-present fs front h, tt))
create_from-Creates fs front (c ∷ rest) = elim (Bool-cases (c == b'/')) [
  | inl e ↦ elim (Bool-cases (mkdir fs front).succeeds) [
    | inl s ↦
        Creates-same fs _ _ _ _ (create_from-slash fs front rest c e s)
          (folders-slash front rest c e)
          (below-Creates fs front (create_from (mkdir fs front).files (front ++ c ∷ []) rest)
            (folders (front ++ c ∷ []) rest) s
            (create_from-Creates (mkdir fs front).files (front ++ c ∷ []) rest))
    | inr s ↦
        Creates-same fs _ _ _ _ (create_from-stop fs front rest c e s)
          (folders-slash front rest c e)
          (stopped-Creates fs front (folders (front ++ c ∷ []) rest) s)
  ]
  | inr e ↦ rw e (create_from-Creates fs (front ++ c ∷ []) rest)
]

-- For a path that is not empty, `create_dir` removes no folder and makes none but those above the path
-- and the path itself; and when it returns 0, all of these are there.
pub create_dir-Grows :
    (fs : Files) (c : ℕ) (path : Bytes)
    → (m : Made) × (create_dir fs (c ∷ path) ≡ some m)
      × Grows fs m.files (folders (c ∷ []) path)
      × ((m.succeeds ≡ false) ⊎ All (λ p. m.files.present p ≡ true) (folders (c ∷ []) path))
unfolding create_dir
create_dir-Grows fs c path =
    let m = create_from fs (c ∷ []) path in
    let (g, a) = create_from-Creates fs (c ∷ []) path in
    (m, refl, g, elim (Bool-cases m.succeeds) [ inl s ↦ inr (a s) | inr s ↦ inl s ])
