-- ===== src/HttpRouter/Operations.antt =====
-- src/supervisor.rs: its operations on HTTP routers, each as it runs alone, with the command it sends
-- handled.
use Prim.Native.String.{String}
use text.Mathlib.Text.{◌==◌ as str_eq}
use mymuxer.Base.{ℕ, List, [], ◌∷◌, Bool, true, false, not, Option, none, some, if◌then◌else◌}
use mymuxer.Base.Maps.{lookup, insert, remove, contains_key, keys}
use mymuxer.Config.{Config, HttpRouterConfig}
use mymuxer.Workers.{Ending}
use mymuxer.HttpRouter.{
  Redb, Storage, HttpRouterCmd, cmd_add_alias, cmd_remove_alias, new, add_aliases, handle_cmd,
  Begin, unreadable, unbound, serving, HttpRouterTask, set_alias, get_alias, aliases, delete_alias,
}

pub data Refusal : Type 0 where
  config_not_loaded : Refusal
  not_running router_not_found : ℕ → Refusal
  not_stored closed join_error : Refusal

abbrev pub Done : Type 0
Done = Option Refusal

-- The fields of Supervisor that matter here.
pub record Routers (Aliases Keys : Type 0) : Type 0 where
  pub config : Option Config
  pub database : Storage Aliases Keys
  pub http_router : List (ℕ × HttpRouterTask)

module _ {Aliases Keys : Type 0} (db : Redb Aliases Keys) where
  unfoldable pub spawned : Begin → HttpRouterConfig → Storage Aliases Keys → HttpRouterTask
  unfolding new add_aliases
  spawned unreadable config t = record { router = new config; finished = true }
  spawned unbound config t = record {
    router = add_aliases (aliases db config.id t) (new config);
    finished = true;
  }
  spawned serving config t = record {
    router = add_aliases (aliases db config.id t) (new config);
    finished = false;
  }

  unfoldable pub start_all :
      (ℕ → Begin) → List HttpRouterConfig → Routers Aliases Keys → Routers Aliases Keys
  unfolding spawned
  start_all begin [] s = s
  start_all begin (config ∷ configs) s =
      let kept = start_all begin configs s in
      let started = start_all begin configs (record s {
        http_router = insert config.id (spawned (begin config.id) config s.database) s.http_router;
      }) in
      if contains_key config.id s.http_router then kept else started

  unfoldable pub start_loaded :
      (ℕ → Begin) → Option Config → Routers Aliases Keys → Routers Aliases Keys × Done
  unfolding start_all
  start_loaded begin none s = (s, some config_not_loaded)
  start_loaded begin (some config) s = (start_all begin config.http_routers s, none)

  unfoldable pub http_router_start :
      (ℕ → Begin) → Routers Aliases Keys → Routers Aliases Keys × Done
  unfolding start_loaded
  http_router_start begin s = start_loaded begin s.config s

  -- `http_router_stop` over the identifiers; how each task ends is up to it.
  unfoldable pub stop_all :
      (ℕ → Ending) → List ℕ → Routers Aliases Keys → Routers Aliases Keys × Done
  stop_all ending [] s = (s, none)
  stop_all ending (id ∷ ids) s =
      let taken = record s { http_router = remove id s.http_router } in
      let rest = stop_all ending ids taken in
      if not (contains_key id s.http_router) then (s, some (not_running id)) else elim (ending id) [
        | Ending.in_time ↦ rest
        | Ending.late ↦ rest
        | Ending.panicked ↦ (taken, some join_error)
      ]

  unfoldable pub http_router_stop :
      (ℕ → Ending) → Routers Aliases Keys → Routers Aliases Keys × Done
  unfolding stop_all
  http_router_stop ending s = stop_all ending (keys s.http_router) s

  -- `tx.send`, if there is a router: one whose task is over no longer receives.
  unfoldable pub send : ℕ → HttpRouterCmd → Routers Aliases Keys → Routers Aliases Keys × Done
  unfolding handle_cmd
  send id cmd s = elim (lookup id s.http_router) [
    | none ↦ (s, none)
    | some t ↦ if t.finished then (s, some closed) else (
      record s {
        http_router = insert id (record t { router = handle_cmd cmd t.router }) s.http_router;
      },
      none,
    )
  ]

  -- `if let Ok(Some(exists)) = … && exists == socket`; `reads` is whether the database can be read.
  unfoldable pub is_there : (reads : Bool) → Option String → String → Bool
  is_there false found socket = false
  is_there true none socket = false
  is_there true (some exists) socket = str_eq exists socket

  unfoldable pub http_router_add_alias :
      (reads writes : Bool)
      → ℕ
      → (alias socket : String) → Routers Aliases Keys
      → Routers Aliases Keys × Done
  unfolding is_there send
  http_router_add_alias reads writes id alias socket s =
      if not (contains_key id s.http_router)
      then (s, some (router_not_found id))
      else if is_there reads (get_alias db id alias s.database) socket
      then (s, none)
      else if writes
      then send id (cmd_add_alias alias socket)
          (record s { database = set_alias db id alias socket s.database })
      else (s, some not_stored)

  unfoldable pub http_router_rm_alias :
      (writes : Bool) → ℕ → (alias : String) → Routers Aliases Keys → Routers Aliases Keys × Done
  unfolding send
  http_router_rm_alias writes id alias s =
      if writes
      then send id (cmd_remove_alias alias)
          (record s { database = delete_alias db id alias s.database })
      else (s, some not_stored)

  unfoldable pub http_router_add_key :
      (writes : Bool) → String → Routers Aliases Keys → Routers Aliases Keys × Done
  http_router_add_key writes key s =
      if writes
      then (
        record s {
          database = record s.database { key_table = db.insert_key key s.database.key_table };
        },
        none,
      )
      else (s, some not_stored)

  unfoldable pub http_router_rm_key :
      (writes : Bool) → String → Routers Aliases Keys → Routers Aliases Keys × Done
  http_router_rm_key writes key s =
      if writes
      then (
        record s {
          database = record s.database { key_table = db.delete_key key s.database.key_table };
        },
        none,
      )
      else (s, some not_stored)
