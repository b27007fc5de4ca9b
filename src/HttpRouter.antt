-- ===== src/HttpRouter.antt =====
-- src/http_router.rs and src/database.rs: the aliases and keys of HTTP routers, and the answer to a
-- request. The tables of `redb` and the router of `axum` are parameters. The reading of sockets is
-- left out: a stream is known by the socket it comes from.
pub mod Operations
pub mod Synced
pub mod Requests
use Prim.Native.String.{String, compare}
use text.Mathlib.Text.{◌==◌ as str_eq, is_le}
use mymuxer.Base.{
  ℕ, ◌≡◌, List, [], ◌∷◌, Bool, true, false, not, ◌||◌, Option, none, some, if◌then◌else◌, Outcome,
  ret, panic,
}
use mymuxer.Base.Maps.{lookup, insert, remove, contains_key, keys}
use mymuxer.Base.Texts.{get, put, without}
use mymuxer.Config.{Config, HttpRouterConfig, is_forbidden}
use mymuxer.Workers.{Ending}

-- What the crate `redb` does with the two tables: aliases stand under an identifier and a name.
-- `range` gives the entries of an identifier from one name up to another.
pub record Redb (Aliases Keys : Type 0) : Type 0 where
  pub alias_in : ℕ → String → Aliases → Option String
  pub insert_alias : ℕ → String → String → Aliases → Aliases
  pub delete_alias : ℕ → String → Aliases → Aliases
  pub range : (first last : String) → ℕ → Aliases → List (String × String)
  pub key_in : String → Keys → Bool
  pub insert_key : String → Keys → Keys
  pub delete_key : String → Keys → Keys

pub record Storage (Aliases Keys : Type 0) : Type 0 where
  pub alias_table : Aliases
  pub key_table : Keys

-- `"\u{10FFFF}"`
abbrev pub last_alias : String
last_alias = "\u{10ffff}"

pub data HttpRouterCmd : Type 0 where
  cmd_add_alias : (alias url : String) → HttpRouterCmd
  cmd_remove_alias : (alias : String) → HttpRouterCmd
  cmd_add_allowed_net cmd_remove_allowed_net cmd_add_key cmd_remove_key : String → HttpRouterCmd

-- `handles` and `aliases_tx`, which change together, are one map from aliases to sockets.
pub record HttpRouter : Type 0 where
  pub id : ℕ
  pub url : String
  pub routes : List String
  pub allowed_nets : List String
  pub aliases : List (String × String)

unfoldable pub new : HttpRouterConfig → HttpRouter
new config = record {
  id = config.id;
  url = config.url;
  routes = config.routes;
  allowed_nets = config.allow;
  aliases = [];
}

unfoldable pub remove_alias : String → HttpRouter → HttpRouter
remove_alias alias r = record r { aliases = without alias r.aliases }

unfoldable pub add_alias : (alias url : String) → HttpRouter → HttpRouter
unfolding remove_alias
add_alias alias url r =
    let removed = remove_alias alias r in record removed { aliases = put alias url removed.aliases }

unfoldable pub handle_cmd : HttpRouterCmd → HttpRouter → HttpRouter
unfolding add_alias remove_alias
handle_cmd (cmd_add_alias alias url) r = add_alias alias url r
handle_cmd (cmd_remove_alias alias) r = remove_alias alias r
handle_cmd (cmd_add_allowed_net net) r = r
handle_cmd (cmd_remove_allowed_net net) r = r
handle_cmd (cmd_add_key key) r = r
handle_cmd (cmd_remove_key key) r = r

-- The first loop of `run`.
unfoldable pub add_aliases : List (String × String) → HttpRouter → HttpRouter
unfolding add_alias
add_aliases [] r = r
add_aliases ((alias, socket) ∷ entries) r = add_aliases entries (add_alias alias socket r)

-- How `run` starts: the database or the listener fails, or it serves.
pub data Begin : Type 0 where
  unreadable unbound serving : Begin

pub record HttpRouterTask : Type 0 where
  pub router : HttpRouter
  pub finished : Bool

-- What a request gets; a stream carries the packets of a socket.
pub data Answer : Type 0 where
  access_denied internal_error not_found : Answer
  unavailable : (alias : String) → Answer
  stream : (socket : String) → Answer

unfoldable pub stream_of : (alias : String) → Option String → Answer
stream_of alias none = unavailable alias
stream_of alias (some socket) = stream socket

module _ {Aliases Keys : Type 0} (db : Redb Aliases Keys) where
  -- `Storage`; the transactions fail or not, as `redb` does.
  abbrev pub set_alias : ℕ → (alias socket : String) → Storage Aliases Keys → Storage Aliases Keys
  set_alias id alias socket t = record t {
    alias_table = db.insert_alias id alias socket t.alias_table;
  }

  abbrev pub get_alias : ℕ → String → Storage Aliases Keys → Option String
  get_alias id alias t = db.alias_in id alias t.alias_table

  abbrev pub aliases : ℕ → Storage Aliases Keys → List (String × String)
  aliases id t = db.range "" last_alias id t.alias_table

  abbrev pub delete_alias : ℕ → String → Storage Aliases Keys → Storage Aliases Keys
  delete_alias id alias t = record t { alias_table = db.delete_alias id alias t.alias_table }

  abbrev pub has_key : String → Storage Aliases Keys → Bool
  has_key key t = db.key_in key t.key_table

  module _ {Ip Net : Type 0} (parse_ip : String → Option Ip) (parse_net : String → Option Net)
      (covers : Net → Ip → Bool) where
    -- The route of `run`, for what `axum` takes from the path.
    unfoldable pub respond :
        (reads : Bool) → (key alias : String) → Storage Aliases Keys → HttpRouter → Answer
    unfolding stream_of
    respond reads key alias t r =
        if not reads
        then internal_error
        else if has_key key t
        then stream_of alias (get alias r.aliases)
        else access_denied

    unfoldable pub routed :
        (reads : Bool) → Option (String × String) → Storage Aliases Keys → HttpRouter → Answer
    unfolding respond
    routed reads none t r = not_found
    routed reads (some (key, alias)) t r = respond reads key alias t r

    -- A request behind the guard on addresses; `path` is none where no route matches.
    unfoldable pub request :
        (is_ipv4 : Bool) (address : String) (reads : Bool) (path : Option (String × String))
        → Storage Aliases Keys
        → HttpRouter
        → Outcome Answer
    unfolding routed
    request is_ipv4 address reads path t r =
        if not is_ipv4
        then ret access_denied
        else elim (is_forbidden parse_ip parse_net covers address r.allowed_nets) [
          | panic ↦ panic
          | ret true ↦ ret access_denied
          | ret false ↦ ret (routed reads path t r)
        ]
