-- ===== src/Queries/Requests.antt =====
-- web/src/lib/queries.ts and api.ts: the request that `fetchJSON` makes of a path and of the options
-- that its caller gives. `stringify` writes the body of a rollback and is a parameter.
use mathlib.Core.Option
use yafu.Base.{Option, none, some, [], ◌∷◌, Text, codes}
use yafu.Base.Entries.{Entries, put}
use yafu.Queries.Mutations.{Mutation, mutation_url, rollback}

-- `RequestInit`, as far as the client uses it.
pub record Init : Type 0 where
  pub method : Text
  pub headers : Entries Text
  pub body : Option Text

pub record Request : Type 0 where
  pub path : Text
  pub init : Init

-- the options of a query, which gives none
abbrev pub get_init : Init
get_init = record { method = codes "GET"; headers = []; body = none }

-- `{ method: 'POST' }`
abbrev pub post_init : Init
post_init = record { method = codes "POST"; headers = []; body = none }

abbrev pub rollback_init : (stringify : Text → Text) → Text → Init
rollback_init stringify revision = record {
  method = codes "POST";
  headers = (codes "Content-Type", codes "application/json") ∷ [];
  body = some (stringify revision);
}

-- `{ ...a, ...b }`: the entries of the second take the place of those of the first
unfoldable pub spread_headers : Entries Text → Entries Text → Entries Text
spread_headers a [] = a
spread_headers a ((k, v) ∷ b) = spread_headers (put k v a) b

-- the request of `fetchJSON`
unfoldable pub request : Text → Init → Request
unfolding spread_headers
request path init = record {
  path = path;
  init = record init {
    headers = spread_headers ((codes "Accept", codes "application/json") ∷ []) init.headers;
  };
}

-- what a mutation sends; a rollback has its revision besides
unfoldable pub mutation_request : (stringify : Text → Text) → Mutation → Text → Option Request
unfolding mutation_url request
mutation_request stringify (rollback a) revision =
    Option.map (λ url. request url (rollback_init stringify revision)) (mutation_url (rollback a))
mutation_request stringify m revision = Option.map (λ url. request url post_init) (mutation_url m)
