-- ===== src/Build/Superset.antt =====
-- Which environment a request shares.
use runner_engine.Prelude.{
  ◌≤◌, ◌≡◌, refl, ap, String, string_eq, Bool, true, Option, none, some, List, [], ◌∷◌, ◌++◌, arith,
  Bool-cases, inl, inr, ◌⊎◌, ◌<◌, ltb, eq→≡, eq_self, false, ◌&&◌, All,
}
use runner_engine.Dict.{Dict, get}
use runner_engine.Build.{
  Environment, BuildDb, RuntimeBuildSpec, serves, precedes, smaller, smallest,
  find_smallest_superset, EnvStatus, pending, building, verifying, ready, failed, is_ready,
  is_version, covers,
}

-- No later in the order than another one.
abbrev pub NotAfter : Environment → Environment → Type 0
NotAfter env other =
    (env.package_count < other.package_count)
    ⊎ ((env.package_count ≡ other.package_count) × (env.created_at ≤ other.created_at))

precedes-NotAfter : (a b : Environment) → precedes a b ≡ true → NotAfter a b
precedes-NotAfter a b h = elim (Bool-cases (ltb a.package_count b.package_count)) [
  | inl less ↦ inl (ground (arith, less))
  | inr more ↦ inr (ground (arith, h, more), ground (arith, h, more))
]

follows-NotAfter : (a b : Environment) → precedes a b ≡ false → NotAfter b a
follows-NotAfter a b h = elim (Bool-cases (ltb b.package_count a.package_count)) [
  | inl less ↦ inl (ground (arith, less))
  | inr more ↦ inr (ground (arith, h, more), ground (arith, h, more))
]

NotAfter-trans : (a b c : Environment) → NotAfter a b → NotAfter b c → NotAfter a c
NotAfter-trans a b c (inl x) (inl y) = inl (omega (arith, x, y))
NotAfter-trans a b c (inl x) (inr (y, z)) = inl (omega (arith, x, y))
NotAfter-trans a b c (inr (x, w)) (inl y) = inl (omega (arith, x, y))
NotAfter-trans a b c (inr (x, w)) (inr (y, z)) = inr (omega (arith, x, y), omega (arith, w, z))

module _ (test : Environment → Bool) where
  smallest-test :
      (envs : List Environment) (env : Environment)
      → smallest test envs ≡ some env
      → test env ≡ true
  unfolding smallest
  smallest-test [] env e = cc e
  smallest-test (x ∷ envs) env e =
      ground (arith, e, smallest-test envs env, ap test {x = x} {y = env})

  -- Of an environment that meets the test and one that is found behind it.
  abbrev Bound : Environment → Option Environment → Type 0
  Bound other found =
      (env : Environment) × (found ≡ some env) × (test env ≡ true) × NotAfter env other

  first-Bound :
      (other : Environment) (rest : Option Environment)
      → ((env : Environment) → rest ≡ some env → test env ≡ true)
      → test other ≡ true
      → Bound other (some (smaller other rest))
  first-Bound other none t good = (other, refl, good, inr (refl, omega arith))
  first-Bound other (some env) t good = elim (Bool-cases (precedes other env)) [
    | inl before ↦ rw before (other, refl, good, inr (refl, omega arith))
    | inr after ↦ rw after (env, refl, t env refl, follows-NotAfter other env after)
  ]

  later-Bound :
      (x other : Environment) (found : Option Environment)
      → Bound other found
      → test x ≡ true
      → Bound other (some (smaller x found))
  later-Bound x other found (env, e, good, small) mine = rw e (elim (Bool-cases (precedes x env)) [
    | inl before ↦
        rw before (x, refl, mine, NotAfter-trans x env other (precedes-NotAfter x env before) small)
    | inr after ↦ rw after (env, refl, good, small)
  ])

  smallest-Bound :
      (before after : List Environment) (other : Environment)
      → test other ≡ true
      → Bound other (smallest test (before ++ other ∷ after))
  unfolding smallest
  smallest-Bound [] after other good =
      rw good (first-Bound other (smallest test after) (smallest-test after) good)
  smallest-Bound (x ∷ before) after other good =
      let rest = smallest-Bound before after other good in
      elim (Bool-cases (test x)) [
        | inl mine ↦ rw mine (later-Bound x other _ rest mine)
        | inr not_mine ↦ rw not_mine rest
      ]

-- What the request asks of an environment that it shares.
pub record Fits (spec : RuntimeBuildSpec) (wanted : Dict String String) (env : Environment)
    : Type 0 where
  pub is_built : env.status ≡ ready
  pub same_base : env.base_image ≡ spec.base_image
  pub same_python : env.python_version ≡ spec.python_version
  pub same_platform : env.platform ≡ spec.platform
  pub same_policy : env.build_policy_version ≡ spec.build_policy_version
  pub has_all : All (λ (p : String × String). get p.0 env.packages ≡ some p.1) wanted

is_ready-ready : (s : EnvStatus) → is_ready s ≡ true → s ≡ ready
is_ready-ready pending h = cc h
is_ready-ready building h = cc h
is_ready-ready verifying h = cc h
is_ready-ready ready h = refl
is_ready-ready failed h = cc h

is_version-some :
    (found : Option String) (version : String)
    → is_version found version ≡ true
    → found ≡ some version
is_version-some none version h = cc h
is_version-some (some v) version h = ap some (eq→≡ v version h)

both : (a b : Bool) → (a && b) ≡ true → (a ≡ true) × (b ≡ true)
both true true h = (refl, refl)
both true false h = cc h
both false b h = cc h

covers-All :
    (packages wanted : Dict String String)
    → covers packages wanted ≡ true
    → All (λ (p : String × String). get p.0 packages ≡ some p.1) wanted
covers-All packages [] h = tt
covers-All packages ((name, version) ∷ wanted) h =
    let (mine, rest) = both _ _ h in
    (is_version-some _ version mine, covers-All packages wanted rest)

All-covers :
    (packages wanted : Dict String String)
    → All (λ (p : String × String). get p.0 packages ≡ some p.1) wanted
    → covers packages wanted ≡ true
All-covers packages [] h = refl
All-covers packages ((name, version) ∷ wanted) (mine, rest) =
    rw (mine, eq_self version) (All-covers packages wanted rest)

module _ (spec : RuntimeBuildSpec) (wanted : Dict String String) (env : Environment) where
  serves-Fits : serves spec wanted env ≡ true → Fits spec wanted env
  serves-Fits h =
      let (a, h₁) = both _ _ h in
      let (b, h₂) = both _ _ h₁ in
      let (c, h₃) = both _ _ h₂ in
      let (d, h₄) = both _ _ h₃ in
      let (e, f) = both _ _ h₄ in
      record {
        is_built = is_ready-ready env.status a;
        same_base = eq→≡ _ _ b;
        same_python = eq→≡ _ _ c;
        same_platform = eq→≡ _ _ d;
        same_policy = eq→≡ _ _ e;
        has_all = covers-All env.packages wanted f;
      }

  Fits-serves : Fits spec wanted env → serves spec wanted env ≡ true
  Fits-serves f =
      rw
        (
          f.is_built,
          f.same_base,
          f.same_python,
          f.same_platform,
          f.same_policy,
          eq_self spec.base_image,
          eq_self spec.python_version,
          eq_self spec.platform,
          eq_self spec.build_policy_version,
        )
        (All-covers env.packages wanted f.has_all)

-- If some environment is READY, has the base image, the Python version, the platform and the
-- policy of the request and all its packages in the versions asked for, find_smallest_superset
-- finds an environment that is so too, and that has fewer packages than the first one, or as many
-- and was created no later.
pub find_smallest_superset_lem :
    (spec : RuntimeBuildSpec) (wanted : Dict String String) (db : BuildDb)
    (before after : List Environment) (other : Environment)
    → db.environments ≡ before ++ other ∷ after
    → Fits spec wanted other
    → (env : Environment) × (find_smallest_superset spec wanted db ≡ some env)
      × Fits spec wanted env
      × NotAfter env other
find_smallest_superset_lem spec wanted db before after other there good =
    let (env, found, fits, least) =
      smallest-Bound (serves spec wanted) before after other (Fits-serves spec wanted other good) in
    (env, rw there found, serves-Fits spec wanted env fits, least)
