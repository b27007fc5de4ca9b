-- ===== src/Tests/HttpRouter.antt =====
-- A database of lists, and a router with one alias.
use Prim.Native.String.{String}
use text.Mathlib.Text.{◌==◌ as str_eq}
use text.Mathlib.TextEquality.{eq_iff}
use mymuxer.Base.{
  ℕ, ◌≡◌, refl, ◌∙◌, List, [], ◌∷◌, Bool, true, false, Option, some, if◌then◌else◌, Bool-cases, inl,
  inr, ◌==◌, ret,
}
use mymuxer.Base.Maps.{lookup, insert}
use mymuxer.Base.Texts.{get, put, without, get-put, get-without}
use mymuxer.Config.{Config, is_forbidden}
use mymuxer.HttpRouter.{Redb, Storage, Begin, HttpRouterTask, request, stream, stream_of}
use mymuxer.HttpRouter.Operations.{http_router_start, http_router_add_alias, http_router_add_key}
use mymuxer.HttpRouter.Synced.{Once, IsLawful}
use mymuxer.HttpRouter.Requests.{Event, load, start, add_alias, add_key, run, fresh, run-request}

-- Lists of aliases, each name once.
abbrev Entries : Type 0
Entries = (entries : List (String × String)) × Once entries

without-Once :
    (key : String) (entries : List (String × String)) → Once entries → Once (without key entries)
unfolding without
without-Once key [] o = tt
without-Once key ((k, v) ∷ rest) (absent, o) = elim (Bool-cases (str_eq k key)) [
  | inl e ↦ rw e (without-Once key rest o)
  | inr e ↦ rw e (
    get-without key k rest
        ∙ elim (Bool-cases (str_eq key k)) [ inl f ↦ rw f refl | inr f ↦ rw f absent ],
    without-Once key rest o,
  )
]

put-Once :
    (key value : String) (entries : List (String × String))
    → Once entries
    → Once (put key value entries)
unfolding put
put-Once key value entries o =
    (get-without key key entries ∙ rw ((eq_iff key key).1 refl) refl, without-Once key entries o)

abbrev changed : ℕ → (Entries → Entries) → (ℕ → Entries) → ℕ → Entries
changed id f t other = if id == other then f (t other) else t other

abbrev is_in : String → List String → Bool
is_in key [] = false
is_in key (k ∷ ks) = if str_eq k key then true else is_in key ks

abbrev lists : Redb (ℕ → Entries) (List String)
lists = record {
  alias_in = λ id name t. get name (t id).0;
  insert_alias =
      λ id name socket t. changed id (λ e. (put name socket e.0, put-Once name socket e.0 e.1)) t;
  delete_alias = λ id name t. changed id (λ e. (without name e.0, without-Once name e.0 e.1)) t;
  range = λ first last id t. (t id).0;
  key_in = λ key t. is_in key t;
  insert_key = λ key t. key ∷ t;
  delete_key = λ key t. t;
}

lists-IsLawful : IsLawful lists
lists-IsLawful = record {
  found = λ id other alias name socket t. elim (Bool-cases (id == other)) [
    | inl e ↦ rw e (get-put alias name socket (t other).0)
    | inr e ↦ rw e refl
  ];
  deleted = λ id other alias name t. elim (Bool-cases (id == other)) [
    | inl e ↦ rw e (get-without alias name (t other).0)
    | inr e ↦ rw e refl
  ];
  ranged = λ id alias t i. refl;
  ranged_once = λ id t. (t id).1;
}

abbrev router_config : Config
router_config = record {
  mgnt = record { hash = ""; last_update = "0"; admin_url = ""; allow = [] };
  epg_configs = [];
  streams = [];
  http_routers =
      record { id = 4; url = "0.0.0.0:80"; routes = "/{key}/{alias}" ∷ []; allow = [] } ∷ [];
}

-- The router starts, and gets an alias; a key is added.
abbrev events : List Event
events =
    load router_config
    ∷ start (λ id. Begin.serving)
    ∷ add_alias true true 4 "news" "/run/news"
    ∷ add_key true "k"
    ∷ []

abbrev database : Storage (ℕ → Entries) (List String)
database = record { alias_table = λ id. ([], tt); key_table = [] }

abbrev news_task : HttpRouterTask
news_task = record {
  router = record {
    id = 4;
    url = "0.0.0.0:80";
    routes = "/{key}/{alias}" ∷ [];
    allowed_nets = [];
    aliases = ("news", "/run/news") ∷ [];
  };
  finished = false;
}

abbrev read : String → Option String
read text = some text

run-request_example :
    request lists read read
      (λ net ip. true)
      true
      "10.0.0.1"
      true
      (some ("k", "news"))
      (run lists events (fresh lists database)).database
      news_task.router
    ≡ ret (stream "/run/news")
unfolding http_router_start http_router_add_alias http_router_add_key lookup is_forbidden stream_of
    get put without insert
run-request_example =
    run-request lists lists-IsLawful read read (λ net ip. true) database events 4 news_task
      "10.0.0.1" "k" "news" refl refl refl refl
