-- ===== src/HybridCache/Machine/Moves.antt =====
-- What the methods of HybridCache (src/cache/hybridCache.ts) do to a guard that another operation
-- holds.
use lazy_layers.Prelude.{
  ℕ, suc, ◌+◌, ◌≡◌, refl, sym, subst, Bool, true, false, Option, none, some, List, ◌||◌, ◌&&◌, not,
  arith, Text, if◌then◌else◌, if_lem, if_cases, leb, ltb, max, length, max_safe_integer,
}
use lazy_layers.Prelude.Maps.{Map, find, is_some, set_key}
use lazy_layers.MemoryBudget.{Budget}
use lazy_layers.HybridCache.{
  text_Eq, text_metadata_bytes, metadata, max_auxiliary_map_bytes, reserve_in,
}
use lazy_layers.HybridCache.Revisions.{Guard}
use lazy_layers.HybridCache.Core.{Core, BusStatus, is_current, get_generation}
use lazy_layers.HybridCache.Guards.{Scene, Event, advances, saturates, changes, step}
use lazy_layers.HybridCache.Guards.Obsolete.{HeldIn, supersedes, step-Follows}
use lazy_layers.HybridCache.State.{Cache}
use lazy_layers.HybridCache.Generations.{
  saturate, store_generation, stored_new, advance_after_delete, advance_after_remote_set,
  max_generation_entries,
}
use lazy_layers.HybridCache.Trust.{Effect, clear_tables}
use lazy_layers.HybridCache.Machine.{World}
use lazy_layers.HybridCache.Machine.Light.{Light, LightWith}

abbrev pub scene_of : World → Scene
scene_of (c, gs) = (c.core, gs)

module _ (a : Bool) (g : Guard) where
  -- From one scene to a later one, g stays held, and is current only if it was so and was not hit.
  abbrev pub Moves : Bool → Scene → Scene → Type 0
  Moves hit s s' =
      HeldIn g s
      → HeldIn g s' × (is_current a g s'.0 ≡ true → (is_current a g s.0 ≡ true) × (hit ≡ false))

  pub still-Moves : (s : Scene) → Moves false s s
  still-Moves s h = (h, λ t. (t, refl))

  pub Moves-trans :
      (x y : Bool) (s s' s'' : Scene) → Moves x s s' → Moves y s' s'' → Moves (x || y) s s''
  Moves-trans x y s s' s'' p q h =
      let (h', f) = p h in
      let (h'', f') = q h' in
      (h'', λ t. let (t', n') = f' t in let (t0, n) = f t' in (t0, ground (arith, n, n')))

  -- A hit is not undone by what follows.
  pub then-Moves : (x : Bool) (s s' s'' : Scene) → Moves x s s' → Moves false s' s'' → Moves x s s''
  then-Moves x s s' s'' p q h = let (h', f) = p h in let (h'', f') = q h' in (h'', λ t. f (f' t).0)

  -- A hit behind a test.
  pub tested-Moves {ℓ} :
      {X : Type ℓ} (f : X → Scene) (b x : Bool) (s : Scene) {y z : X}
      → Moves false s (f y)
      → Moves x s (f z)
      → Moves (not b && x) s (f (if b then y else z))
  tested-Moves f true x s p q = p
  tested-Moves f false x s p q = q

  pub event-Moves :
      (e : Event) (c : Core) (gs : List Guard)
      → Moves (supersedes g.key e c) (c, gs) (step e (c, gs))
  event-Moves e c gs h =
      let (h', now) = step-Follows a g e c gs h in (h', λ t. ground (arith, now, t))

  pub Light-Moves :
      (c c' : Cache) (gs : List Guard) → Light c c' → Moves false (c.core, gs) (c'.core, gs)
  Light-Moves c c' gs l =
      let k = c.core in
      let b = c'.core.budget in
      let e =
        changes b k.generations k.generation_bytes k.trusted k.invalidation_revision k.bus_status in
      subst (λ x. Moves false (c.core, gs) (x, gs)) (sym l)
        (unfold step supersedes in event-Moves e c.core gs)

  -- The part of a result that is the cache.
  abbrev pub MovesWith {ℓ} : Bool → Cache → List Guard → {A : Type ℓ} → Cache × A → Type 0
  MovesWith hit c gs (c', x) = Moves hit (c.core, gs) (c'.core, gs)

  pub lightly {ℓ} :
      {A : Type ℓ} (c : Cache) (gs : List Guard) (r : Cache × A)
      → LightWith c r
      → MovesWith false c gs r
  lightly c gs (c', x) l = Light-Moves c c' gs l

  pub unhit-Moves : (x : Bool) (s s' : Scene) → Moves x s s' → Moves false s s'
  unhit-Moves x s s' p h = let (h', f) = p h in (h', λ t. ((f t).0, refl))

  -- Two cores in turn, with the same guards.
  pub cores-Moves :
      (c c' c'' : Core) (gs : List Guard)
      → Moves false (c, gs) (c', gs)
      → Moves false (c', gs) (c'', gs)
      → Moves false (c, gs) (c'', gs)
  cores-Moves c c' c'' gs p q = Moves-trans false false (c, gs) (c', gs) (c'', gs) p q

  pub advanced-Moves :
      (c : Core) (gs : List Guard) → Moves true (c, gs) (record c { epoch = suc c.epoch }, gs)
  unfolding step supersedes
  advanced-Moves c gs = event-Moves advances c gs

  saturated-Moves :
      (c : Core) (gs : List Guard)
      → c.saturated ≡ false
      → Moves false (c, gs) (record c { saturated = true; epoch = suc c.epoch }, gs)
  unfolding step supersedes
  saturated-Moves c gs e =
      subst
        (λ b.
          Moves false (c, gs)
            ((if b then c else record c { saturated = true; epoch = suc c.epoch }), gs))
        e
        (unhit-Moves (not c.saturated) (c, gs) (step saturates (c, gs))
          (event-Moves saturates c gs))

  pub changed-Moves :
      (c : Core) (gs : List Guard) (b : Option Budget) (m : Map Text ℕ) (n : ℕ) (t : Bool) (i : ℕ)
      (s : Option BusStatus)
      → Moves false
          (c, gs)
          (
            record c {
              budget = b;
              generations = m;
              generation_bytes = n;
              trusted = t;
              invalidation_revision = i;
              bus_status = s;
            },
            gs,
          )
  unfolding step supersedes
  changed-Moves c gs b m n t i s = event-Moves (changes b m n t i s) c gs

  generations-Moves :
      (c : Core) (gs : List Guard) (b : Option Budget) (m : Map Text ℕ) (n : ℕ)
      → Moves false (c, gs) (record c { budget = b; generations = m; generation_bytes = n }, gs)
  generations-Moves c gs b m n =
      changed-Moves c gs b m n c.trusted c.invalidation_revision c.bus_status

  pub saturate-Moves : (c : Cache) (gs : List Guard) → MovesWith false c gs (saturate c)
  unfolding saturate clear_tables
  saturate-Moves c gs =
      let c1 : Cache = record c {
        core = record c.core { saturated = true; epoch = suc c.core.epoch };
      } in
      if_cases (MovesWith false c gs) c.core.saturated (λ h. still-Moves (c.core, gs))
        (λ h.
          cores-Moves c.core c1.core (clear_tables c1).core gs (saturated-Moves c.core gs h)
            (Light-Moves c1 (clear_tables c1) gs refl))

  module _ (c : Cache) (gs : List Guard) where
    stored_new-Moves :
        (k : Text) (n : ℕ) (r : Option Budget × Bool) → MovesWith false c gs (stored_new k n c r)
    stored_new-Moves k n (b, true) =
        generations-Moves c.core gs b (set_key k n c.core.generations)
          (c.core.generation_bytes + text_metadata_bytes k)
    stored_new-Moves k n (b, false) =
        let c' : Cache = record c { core = record c.core { budget = b } } in
        cores-Moves c.core c'.core (saturate c').0.core gs (Light-Moves c c' gs refl)
          (saturate-Moves c' gs)

    pub store_generation-Moves : (k : Text) (n : ℕ) → MovesWith false c gs (store_generation k n c)
    unfolding store_generation
    store_generation-Moves k n =
        let P : Cache × List Effect → Type 0 = MovesWith false c gs in
        let bytes = text_metadata_bytes k in
        let spent = saturate-Moves c gs in
        let m = set_key k n c.core.generations in
        if_lem P (not (leb n max_safe_integer)) spent (
          if_lem P (is_some (find k c.core.generations))
            (generations-Moves c.core gs c.core.budget m c.core.generation_bytes)
            (if_lem P
              (leb max_generation_entries (length c.core.generations)
                || ltb max_auxiliary_map_bytes (c.core.generation_bytes + bytes))
              spent (stored_new-Moves k n (reserve_in metadata bytes c.core.budget))))

    pub advance_after_delete-Moves :
        (k : Text) (o : Option ℕ) → MovesWith false c gs (advance_after_delete k o c)
    unfolding advance_after_delete
    advance_after_delete-Moves k none = store_generation-Moves k (get_generation k c.core + 1)
    advance_after_delete-Moves k (some n) =
        store_generation-Moves k (max (get_generation k c.core) n)

    pub advance_after_remote_set-Moves :
        (k : Text) (o : Option ℕ) → MovesWith false c gs (advance_after_remote_set k o c)
    unfolding advance_after_remote_set
    advance_after_remote_set-Moves k none = still-Moves (c.core, gs)
    advance_after_remote_set-Moves k (some n) =
        store_generation-Moves k (max (get_generation k c.core) n)
