-- ===== src/HttpRouter/Synced.antt =====
-- What running routers serve is what the database holds.
use Prim.Native.String.{String, compare}
use text.Mathlib.Text.{◌==◌ as str_eq, is_le}
use text.Mathlib.TextEquality.{eq_iff}
use mymuxer.Base.{
  ℕ, ◌≡◌, refl, sym, ◌∙◌, arith, List, [], ◌∷◌, true, false, ◌&&◌, Option, none, some,
  if◌then◌else◌, Bool-cases, inl, inr, ◌==◌, ◌⊎◌,
}
use mymuxer.Base.Maps.{lookup, insert, remove, contains_key, lookup-insert, lookup-remove}
use mymuxer.Base.Texts.{get, without, get-put, get-without}
use mymuxer.Config.{HttpRouterConfig}
use mymuxer.Workers.{Ending}
use mymuxer.HttpRouter.{
  Redb, Storage, last_alias, HttpRouter, HttpRouterCmd, new, add_alias, remove_alias, handle_cmd,
  add_aliases, Begin, unreadable, unbound, serving, HttpRouterTask, get_alias, aliases,
}
use mymuxer.HttpRouter.Operations.{Routers, spawned, start_all, stop_all, send}

-- Each name stands once.
abbrev pub Once : List (String × String) → Type 0
Once [] = Unit
Once ((alias, socket) ∷ entries) = (get alias entries ≡ none) × Once entries

-- The names that a range up to the last one reaches.
abbrev pub InRange : String → Type 0
InRange alias = is_le (compare alias last_alias) ≡ true

module _ {Aliases Keys : Type 0} (db : Redb Aliases Keys) where
  -- What `redb` documents: what is put under a key is found there until it is deleted, and a range
  -- has the entries of an identifier up to its last name, each once.
  pub record IsLawful : Type 0 where
    pub found :
        (id other : ℕ) (alias name socket : String) (t : Aliases)
        → db.alias_in other name (db.insert_alias id alias socket t)
          ≡ (if (id == other) && str_eq alias name then some socket else db.alias_in other name t)
    pub deleted :
        (id other : ℕ) (alias name : String) (t : Aliases)
        → db.alias_in other name (db.delete_alias id alias t)
          ≡ (if (id == other) && str_eq alias name then none else db.alias_in other name t)
    pub ranged :
        (id : ℕ) (alias : String) (t : Aliases)
        → InRange alias
        → get alias (db.range "" last_alias id t) ≡ db.alias_in id alias t
    pub ranged_once : (id : ℕ) (t : Aliases) → Once (db.range "" last_alias id t)

  -- A router has the sockets of the database.
  abbrev pub Has : ℕ → Storage Aliases Keys → HttpRouter → Type 0
  Has id t r = (alias : String) → InRange alias → get alias r.aliases ≡ get_alias db id alias t

  -- Every router that runs has them.
  abbrev pub Synced : Routers Aliases Keys → Type 0
  Synced s =
      (id : ℕ) (t : HttpRouterTask)
      → lookup id s.http_router ≡ some t
      → t.finished ≡ false
      → Has id s.database t.router

-- The alias, or else what was there.
abbrev or_there : Option String → Option String → Option String
or_there none there = there
or_there (some socket) there = some socket

pub get-add_alias :
    (alias name url : String) (r : HttpRouter)
    → get name (add_alias alias url r).aliases
      ≡ (if str_eq alias name then some url else get name r.aliases)
unfolding add_alias remove_alias
get-add_alias alias name url r =
    get-put alias name url (without alias r.aliases) ∙ elim (Bool-cases (str_eq alias name)) [
      | inl e ↦ rw e refl
      | inr e ↦ rw e (get-without alias name r.aliases ∙ rw e refl)
    ]

get-add_aliases :
    (name : String) (entries : List (String × String)) (r : HttpRouter)
    → Once entries
    → get name (add_aliases entries r).aliases ≡ or_there (get name entries) (get name r.aliases)
unfolding add_aliases get
get-add_aliases name [] r o = refl
get-add_aliases name ((alias, socket) ∷ entries) r (absent, o) =
    get-add_aliases name entries (add_alias alias socket r) o
    ∙ (rw (get-add_alias alias name socket r) (elim (Bool-cases (str_eq alias name)) [
      | inl e ↦
          let p : get name entries ≡ none = rw (← (eq_iff alias name).0 e) absent in rw (e, p) refl
      | inr e ↦ rw e refl
    ]))

or_there-none : (found : Option String) → or_there found none ≡ found
or_there-none none = refl
or_there-none (some socket) = refl

Ending-cases : (e : Ending) → (e ≡ Ending.in_time) ⊎ (e ≡ Ending.late) ⊎ (e ≡ Ending.panicked)
Ending-cases Ending.in_time = inl refl
Ending-cases Ending.late = inr (inl refl)
Ending-cases Ending.panicked = inr (inr refl)

pub found_or_not : {A : Type 0} → (found : Option A) → (found ≡ none) ⊎ ((a : A) × (found ≡ some a))
found_or_not none = inl refl
found_or_not (some a) = inr (a, refl)

module _ {Aliases Keys : Type 0} (db : Redb Aliases Keys) (laws : IsLawful db) where
  spawned-Has :
      (b : Begin) (config : HttpRouterConfig) (t : Storage Aliases Keys)
      → (spawned db b config t).finished ≡ false
      → Has db config.id t (spawned db b config t).router
  unfolding spawned new get
  spawned-Has unreadable config t f = absurd (cc f)
  spawned-Has unbound config t f = absurd (cc f)
  spawned-Has serving config t f = λ alias i.
      get-add_aliases alias (aliases db config.id t) (new config)
        (laws.ranged_once config.id t.alias_table)
      ∙ or_there-none (get alias (aliases db config.id t))
      ∙ laws.ranged config.id alias t.alias_table i

  -- A task put into the map.
  pub insert-Synced :
      (id : ℕ) (t : HttpRouterTask) (s : Routers Aliases Keys)
      → ((other : ℕ) (u : HttpRouterTask)
          → (id == other) ≡ false
          → lookup other s.http_router ≡ some u
          → u.finished ≡ false
          → Has db other s.database u.router)
      → (t.finished ≡ false → Has db id s.database t.router)
      → Synced db (record s { http_router = insert id t s.http_router })
  insert-Synced id t s others this other u e f =
      let l = sym (lookup-insert id other t s.http_router) ∙ e in
      elim (Bool-cases (id == other)) [
        | inl h ↦
            let p : id ≡ other = ground arith in
            let q : t ≡ u = cc (rw h at l) in rw (← p) (rw (← q) (this (rw q f)))
        | inr h ↦ others other u h (rw h at l) f
      ]

  pub start_all-Synced :
      (begin : ℕ → Begin) (configs : List HttpRouterConfig) (s : Routers Aliases Keys)
      → Synced db s
      → Synced db (start_all db begin configs s)
  unfolding start_all
  start_all-Synced begin [] s y = y
  start_all-Synced begin (config ∷ configs) s y =
      elim (Bool-cases (contains_key config.id s.http_router)) [
        | inl e ↦ rw e (start_all-Synced begin configs s y)
        | inr e ↦ rw e (
            start_all-Synced begin configs _ (
              insert-Synced config.id (spawned db (begin config.id) config s.database) s
                (λ other u h l f. y other u l f) (spawned-Has (begin config.id) config s.database)))
      ]

  remove-Synced :
      (id : ℕ) (s : Routers Aliases Keys)
      → Synced db s
      → Synced db (record s { http_router = remove id s.http_router })
  remove-Synced id s y other u e f =
      let l = sym (lookup-remove id other s.http_router) ∙ e in
      elim (Bool-cases (id == other)) [
        | inl h ↦ absurd (cc (rw h at l))
        | inr h ↦ y other u (rw h at l) f
      ]

  pub stop_all-Synced :
      (ending : ℕ → Ending) (ids : List ℕ) (s : Routers Aliases Keys)
      → Synced db s
      → Synced db (stop_all db ending ids s).0
  unfolding stop_all
  stop_all-Synced ending [] s y = y
  stop_all-Synced ending (id ∷ ids) s y =
      let removed = remove-Synced id s y in
      elim (Bool-cases (contains_key id s.http_router)) [
        | inr e ↦ rw e y
        | inl e ↦ rw e (elim (Ending-cases (ending id)) [
          | inl x ↦ rw (x, stop_all) (stop_all-Synced ending ids _ removed)
          | inr (inl x) ↦ rw (x, stop_all) (stop_all-Synced ending ids _ removed)
          | inr (inr x) ↦ rw (x, stop_all) removed
        ])
      ]

  -- A change of the database, sent to the router it concerns.
  pub send-Synced :
      (id : ℕ) (cmd : HttpRouterCmd) (t : Storage Aliases Keys) (s : Routers Aliases Keys)
      → Synced db s
      → ((other : ℕ) (r : HttpRouter)
          → (id == other) ≡ false
          → Has db other s.database r
          → Has db other t r)
      → ((r : HttpRouter) → Has db id s.database r → Has db id t (handle_cmd cmd r))
      → Synced db (send db id cmd (record s { database = t })).0
  unfolding send
  send-Synced id cmd t s y others this = elim (found_or_not (lookup id s.http_router)) [
    | inl e ↦
        rw (e, send)
          (λ other u l f. elim (Bool-cases (id == other)) [
            | inl h ↦
                let p : id ≡ other = ground arith in
                let q : lookup other s.http_router ≡ none = rw (← p) e in absurd (cc (sym q ∙ l))
            | inr h ↦ others other u.router h (y other u l f)
          ])
    | inr (v, e) ↦ elim (Bool-cases v.finished) [
      | inl over ↦
          rw (e, send)
            (rw over (λ other u l f. elim (Bool-cases (id == other)) [
              | inl h ↦
                  let p : id ≡ other = ground arith in
                  let q : lookup other s.http_router ≡ some v = rw (← p) e in
                  let same : v ≡ u = cc (sym q ∙ l) in
                  let still : v.finished ≡ false = rw same f in absurd (cc (sym over ∙ still))
              | inr h ↦ others other u.router h (y other u l f)
            ]))
      | inr runs ↦
          rw (e, send)
            (rw runs (
              insert-Synced id (record { router = handle_cmd cmd v.router; finished = false })
                (record s { database = t })
                (λ other u h l f. others other u.router h (y other u l f))
                (λ f. this v.router (y id v e runs))))
    ]
  ]
