-- ===== src/HttpRouter/Requests.antt =====
-- What requests get after any operations on the routers.
use Prim.Native.String.{String}
use mymuxer.Base.{
  ℕ, ◌≡◌, refl, ◌∙◌, arith, List, [], ◌∷◌, Bool, true, false, Option, none, some, if◌then◌else◌,
  ret, Bool-cases, inl, inr, ◌==◌,
}
use mymuxer.Base.Maps.{lookup, insert, contains_key, keys}
use mymuxer.Base.Texts.{get-without}
use mymuxer.Config.{Config, is_forbidden}
use mymuxer.Workers.{Ending}
use mymuxer.HttpRouter.{
  Redb, Storage, HttpRouterTask, Begin, handle_cmd, cmd_add_alias, cmd_remove_alias, get_alias,
  has_key, stream_of, access_denied, remove_alias, request, respond, routed, set_alias,
  delete_alias,
}
use mymuxer.HttpRouter.Operations.{
  Routers, http_router_start, http_router_stop, start_loaded, http_router_add_alias,
  http_router_rm_alias, http_router_add_key, http_router_rm_key, is_there, send,
}
use mymuxer.HttpRouter.Synced.{
  IsLawful, InRange, Synced, insert-Synced, start_all-Synced, stop_all-Synced, send-Synced,
  get-add_alias, found_or_not,
}

-- What happens to the routers: the operations with what comes of them, a configuration that is
-- loaded, and a router's task that ends by itself.
pub data Event : Type 0 where
  load : Config → Event
  start : (ℕ → Begin) → Event
  stop : (ℕ → Ending) → Event
  add_alias : (reads writes : Bool) → ℕ → (alias socket : String) → Event
  rm_alias : (writes : Bool) → ℕ → (alias : String) → Event
  add_key rm_key : (writes : Bool) → (key : String) → Event
  ended : ℕ → Event

module _ {Aliases Keys : Type 0} (db : Redb Aliases Keys) where
  abbrev end_router : ℕ → Option HttpRouterTask → Routers Aliases Keys → Routers Aliases Keys
  end_router id none s = s
  end_router id (some t) s = record s {
    http_router = insert id (record { router = t.router; finished = true }) s.http_router;
  }

  abbrev pub after : Event → Routers Aliases Keys → Routers Aliases Keys
  after (load config) s = record s { config = some config }
  after (start begin) s = (http_router_start db begin s).0
  after (stop ending) s = (http_router_stop db ending s).0
  after (add_alias reads writes id alias socket) s =
      (http_router_add_alias db reads writes id alias socket s).0
  after (rm_alias writes id alias) s = (http_router_rm_alias db writes id alias s).0
  after (add_key writes key) s = (http_router_add_key db writes key s).0
  after (rm_key writes key) s = (http_router_rm_key db writes key s).0
  after (ended id) s = end_router id (lookup id s.http_router) s

  abbrev pub run : List Event → Routers Aliases Keys → Routers Aliases Keys
  run [] s = s
  run (e ∷ es) s = run es (after e s)

  -- The supervisor that starts on a database.
  abbrev pub fresh : Storage Aliases Keys → Routers Aliases Keys
  fresh t = record { config = none; database = t; http_router = [] }

  module _ (laws : IsLawful db) where
    add-Synced :
        (id : ℕ) (alias socket : String) (s : Routers Aliases Keys)
        → Synced db s
        → Synced db
            (send db id
              (cmd_add_alias alias socket)
              (record s { database = set_alias db id alias socket s.database })).0
    unfolding handle_cmd
    add-Synced id alias socket s y =
        send-Synced db laws id (cmd_add_alias alias socket)
          (set_alias db id alias socket s.database) s y
          (λ other r h has name i.
            rw (laws.found id other alias name socket s.database.alias_table, h) (has name i))
          (λ r has name i.
            let self : (id == id) ≡ true = ground arith in
            get-add_alias alias name socket r
            ∙ rw (laws.found id id alias name socket s.database.alias_table, self, has name i) refl)

    remove-Synced :
        (id : ℕ) (alias : String) (s : Routers Aliases Keys)
        → Synced db s
        → Synced db
            (send db id
              (cmd_remove_alias alias)
              (record s { database = delete_alias db id alias s.database })).0
    unfolding handle_cmd remove_alias
    remove-Synced id alias s y =
        send-Synced db laws id (cmd_remove_alias alias) (delete_alias db id alias s.database) s y
          (λ other r h has name i.
            rw (laws.deleted id other alias name s.database.alias_table, h) (has name i))
          (λ r has name i.
            let self : (id == id) ≡ true = ground arith in
            get-without alias name r.aliases
            ∙ rw (laws.deleted id id alias name s.database.alias_table, self, has name i) refl)

    start_loaded-Synced :
        (begin : ℕ → Begin) (config : Option Config) (s : Routers Aliases Keys)
        → Synced db s
        → Synced db (start_loaded db begin config s).0
    unfolding start_loaded
    start_loaded-Synced begin none s y = y
    start_loaded-Synced begin (some config) s y =
        start_all-Synced db laws begin config.http_routers s y

    http_router_add_alias-Synced :
        (reads writes : Bool) (id : ℕ) (alias socket : String) (s : Routers Aliases Keys)
        → Synced db s
        → Synced db (http_router_add_alias db reads writes id alias socket s).0
    unfolding http_router_add_alias
    http_router_add_alias-Synced reads writes id alias socket s y =
        elim (Bool-cases (contains_key id s.http_router)) [
          | inr e ↦ rw e y
          | inl e ↦
              rw e
                (elim (Bool-cases (is_there db reads (get_alias db id alias s.database) socket)) [
                  | inl there ↦ rw there y
                  | inr away ↦ rw away (elim (Bool-cases writes) [
                    | inl w ↦ rw w (add-Synced id alias socket s y)
                    | inr w ↦ rw w y
                  ])
                ])
        ]

    -- An event leaves running routers with what the database holds.
    after-Synced : (e : Event) (s : Routers Aliases Keys) → Synced db s → Synced db (after e s)
    unfolding http_router_start http_router_stop http_router_add_alias http_router_rm_alias
        http_router_add_key http_router_rm_key
    after-Synced (load config) s y = y
    after-Synced (start begin) s y = start_loaded-Synced begin s.config s y
    after-Synced (stop ending) s y = stop_all-Synced db laws ending (keys s.http_router) s y
    after-Synced (add_alias reads writes id alias socket) s y =
        http_router_add_alias-Synced reads writes id alias socket s y
    after-Synced (rm_alias writes id alias) s y = elim (Bool-cases writes) [
      | inl w ↦ rw w (remove-Synced id alias s y)
      | inr w ↦ rw w y
    ]
    after-Synced (add_key writes key) s y = elim (Bool-cases writes) [
      | inl w ↦ rw w y
      | inr w ↦ rw w y
    ]
    after-Synced (rm_key writes key) s y = elim (Bool-cases writes) [
      | inl w ↦ rw w y
      | inr w ↦ rw w y
    ]
    after-Synced (ended id) s y = elim (found_or_not (lookup id s.http_router)) [
      | inl e ↦ rw e y
      | inr (t, e) ↦ rw e (
          insert-Synced db laws id (record { router = t.router; finished = true }) s
            (λ other u h l f. y other u l f) (λ f. absurd (cc f)))
    ]

    run-Synced :
        (events : List Event) (s : Routers Aliases Keys) → Synced db s → Synced db (run events s)
    run-Synced [] s y = y
    run-Synced (e ∷ es) s y = run-Synced es (after e s) (after-Synced e s y)

    fresh-Synced : (t : Storage Aliases Keys) → Synced db (fresh t)
    unfolding lookup
    fresh-Synced t id u e f = absurd (cc e)

    module _ {Ip Net : Type 0} (parse_ip : String → Option Ip) (parse_net : String → Option Net)
        (covers : Net → Ip → Bool) where
      -- With a database that keeps what is put into it: from a fresh supervisor, whatever events
      -- follow, one after the other, a request to a router that runs, from an address of the fourth
      -- version that the router lets in, with a key and an alias that a range reaches, while the
      -- database can be read, gets the stream of the socket that the database holds for this router
      -- and alias, or is told that there is none; without a key of the database it is refused.
      pub run-request :
          (t : Storage Aliases Keys) (events : List Event) (id : ℕ) (task : HttpRouterTask)
          (address key alias : String)
          → lookup id (run events (fresh t)).http_router ≡ some task
          → task.finished ≡ false
          → is_forbidden parse_ip parse_net covers address task.router.allowed_nets ≡ ret false
          → InRange alias
          → request db parse_ip parse_net covers true address true
              (some (key, alias))
              (run events (fresh t)).database
              task.router
            ≡ ret (
                if has_key db key (run events (fresh t)).database
                then stream_of alias (get_alias db id alias (run events (fresh t)).database)
                else access_denied)
      unfolding request routed respond
      run-request t events id task address key alias l f allowed i =
          let here = run-Synced events (fresh t) (fresh-Synced t) id task l f alias i in
          rw (allowed, request) (rw here refl)
