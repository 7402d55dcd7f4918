-- ===== src/DefaultHeaders.antt =====
-- src/middleware/defaultheaders.rs: headers that a response gets where it does not have them. The
-- header map of the crate `http`, the conversions of names and values, and the responses of
-- `actix_http` are parameters.
pub mod Lookup
mod Tests
use actix_web.Prelude.{
  Bool, true, false, not, is_some, ◌&&◌, Option, none, some, List, [], ◌∷◌, if◌then◌else◌, ◌≡◌,
  Result, ok, err,
}
use actix_web.Futures.{Fut, later, now, spent}

-- `HeaderMap`, by what it documents: `insert` sets the value of a name and leaves other names
-- alone. `get` gives the first value of a name, and `contains_key` says whether there is one.
pub record HeaderMaps : Type 1 where
  pub Name : Type 0
  pub Value : Type 0
  pub name_eq : Name → Name → Bool
  pub name_eq-true : (a b : Name) → name_eq a b ≡ true → a ≡ b
  pub Map : Type 0
  pub empty : Map
  pub get : Map → Name → Option Value
  pub insert : Map → Name → Value → Map
  pub append : Map → Name → Value → Map
  pub iter : Map → List (Name × Value)
  pub get-insert : (m : Map) (k : Name) (v : Value) → get (insert m k v) k ≡ some v
  pub get-insert-ne :
      (m : Map) (k l : Name) (v : Value) → name_eq k l ≡ false → get (insert m k v) l ≡ get m l
  -- `CONTENT_TYPE`, and "application/octet-stream"
  pub content_type_name : Name
  pub octet_stream : Value
  pub Response : Type 0
  pub headers : Response → Map
  pub set_headers : Response → Map → Response
  pub headers-set_headers : (r : Response) (m : Map) → headers (set_headers r m) ≡ m

module _ (M : HeaderMaps) where
  -- `DefaultHeaders`, with its `Inner`.
  pub record DefaultHeaders : Type 0 where
    pub ct : Bool
    pub headers : M.Map

  -- `DefaultHeaders::new`.
  abbrev pub new : DefaultHeaders
  new = record { ct = false; headers = M.empty }

  -- `DefaultHeaders::header`, of what the conversions gave; `none` is the panic.
  unfoldable pub header : DefaultHeaders → Option M.Name → Option M.Value → Option DefaultHeaders
  header d (some key) (some value) = some (record d { headers = M.append d.headers key value })
  header d (some key) none = none
  header d none value = none

  -- `DefaultHeaders::content_type`.
  unfoldable pub content_type : DefaultHeaders → DefaultHeaders
  content_type d = record d { ct = true }

  -- One round of the loop of `call`.
  abbrev pub add_header : M.Map → M.Name → M.Value → M.Map
  add_header m key value = if not (is_some (M.get m key)) then M.insert m key value else m

  -- The loop of `call`.
  unfoldable pub add_headers : M.Map → List (M.Name × M.Value) → M.Map
  add_headers m [] = m
  add_headers m ((key, value) ∷ rest) = add_headers (add_header m key value) rest

  -- The default content type.
  unfoldable pub add_content_type : Bool → M.Map → M.Map
  add_content_type ct m =
      if ct && not (is_some (M.get m M.content_type_name))
      then M.insert m M.content_type_name M.octet_stream
      else m

  -- What `call` does to the response.
  unfoldable pub complete : DefaultHeaders → M.Response → M.Response
  unfolding add_headers add_content_type
  complete d res =
      M.set_headers res (add_content_type d.ct (add_headers (M.headers res) (M.iter d.headers)))

  -- `Transform::call`, of the future that the wrapped service returns.
  unfoldable pub call : {E : Type 0} → DefaultHeaders → Fut M.Response E → Fut M.Response E
  call d (later fut) = later (call d fut)
  call d (now (ok res)) = now (ok (complete d res))
  call d (now (err e)) = now (err e)
  call d spent = spent
