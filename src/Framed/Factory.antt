-- ===== src/Framed/Factory.antt =====
-- How the service of a route of src/framed_route.rs comes to be: the factories of
-- src/framed_handler.rs, and the builders that map a request before it comes to the handler.
use actix_web.Prelude.{String, List, [], ◌∷◌, ◌++◌, ok}
use actix_web.Futures.{Fut, now}
use actix_web.Futures.Combinators.{Combinators, called, and_then, map_err}
use actix_web.Http.{HttpTypes}
use actix_web.Handler.Factory.{Joins}
use actix_web.Framed.{FramedError, FramedRequest, FramedExtractor, handle, extract}
use actix_web.Framed.Pipeline.{pipeline, handling, extracting}
use actix_web.Framed.Route.{FramedRoutePatternBuilder, FramedRoute, with_service}

-- `FramedHandle` and its service, which hold the handler.
pub record FramedHandle (F T Ex E : Type 0) : Type 0 where
  pub hnd : F → T → Ex → Fut (Unit {0}) E

-- `FramedExtract` and its service, which hold the configuration of the extractor.
pub record FramedExtract (Config : Type 0) : Type 0 where
  pub cfg : Config

-- `FramedFactory::call` of a function: `factory_tuple!` hands on what the maps of the route gave,
-- before what was extracted; `factory_tuple_unit!` is for a route without one.
abbrev pub call_tuple : {F T Ex R : Type 0} → (F → Ex → T → R) → F → T → Ex → R
call_tuple hnd framed param extra = hnd framed extra param

abbrev pub call_tuple_unit : {F T R : Type 0} → (F → T → R) → F → T → Unit {0} → R
call_tuple_unit hnd framed param extra = hnd framed param

-- `FramedHandle::new` and `FramedExtract::new`.
abbrev pub new_handle :
    {F T Ex E : Type 0} → (F → T → Ex → Fut (Unit {0}) E) → FramedHandle F T Ex E
new_handle hnd = record { hnd = hnd }

abbrev pub new_extract : {Config : Type 0} → Config → FramedExtract Config
new_extract cfg = record { cfg = cfg }

-- `NewService::new_service` of both.
abbrev pub handle_service :
    {F T Ex E : Type 0} → FramedHandle F T Ex E → Fut (FramedHandle F T Ex E) (Unit {0})
handle_service h = now (ok (record { hnd = h.hnd }))

abbrev pub extract_service :
    {Config : Type 0} → FramedExtract Config → Fut (FramedExtract Config) (Unit {0})
extract_service e = now (ok (record { cfg = e.cfg }))

-- What maps a request: a service that takes one and gives one.
abbrev pub Mapping : Type 0 → Type 0 → Type 0 → Type 0 → Type 0
Mapping F U1 U2 G = FramedRequest F U1 → Fut (FramedRequest F U2) (FramedError G F)

-- `FramedRouteBuilder`; its service is what `self.service.new_service()` returns.
pub record FramedRouteBuilder (F U1 U2 G : Type 0) : Type 0 where
  pub service : Fut (Mapping F U1 U2 G) (Unit {0})
  pub pattern : String
  pub methods : List String
  pub headers : List (String × String)

module _ {F U1 U2 G : Type 0} where
  -- `FramedRouteBuilder::new` and `method`.
  abbrev pub new_builder :
      String → Fut (Mapping F U1 U2 G) (Unit {0}) → FramedRouteBuilder F U1 U2 G
  new_builder path factory = record {
    service = factory;
    pattern = path;
    methods = [];
    headers = [];
  }

  abbrev pub builder_method : FramedRouteBuilder F U1 U2 G → String → FramedRouteBuilder F U1 U2 G
  builder_method b method = record b { methods = b.methods ++ method ∷ [] }

  -- The service of `from_err()` and `and_then(md)`.
  abbrev pub and_map :
      {U3 : Type 0} → Combinators → Mapping F U1 U2 G → Mapping F U2 U3 G → Mapping F U1 U3 G
  and_map C s md req = and_then C (map_err C (s req) (λ e. e)) md

  -- `FramedRouteBuilder::map`.
  unfoldable pub map_next :
      {U3 : Type 0}
      → Combinators
      → Joins
      → FramedRouteBuilder F U1 U2 G
      → Fut (Mapping F U2 U3 G) (Unit {0})
      → FramedRouteBuilder F U1 U3 G
  map_next C J b md = record {
    service = called (λ s. and_map C s.0 s.1) (J.both _ _ _ b.service md);
    pattern = b.pattern;
    methods = b.methods;
    headers = b.headers;
  }

-- `FramedRoutePatternBuilder::map`.
abbrev pub map_request :
    {F U G : Type 0}
    → FramedRoutePatternBuilder
    → Fut (Mapping F (Unit {0}) U G) (Unit {0})
    → FramedRouteBuilder F (Unit {0}) U G
map_request b md = record {
  service = md;
  pattern = b.pattern;
  methods = b.methods;
  headers = b.headers;
}

module _ {H : HttpTypes} {F U1 U2 T E : Type 0} (C : Combinators) where
  -- The service of `FramedRouteBuilder::with`.
  abbrev pub mapped_pipeline :
      Mapping F U1 U2 H.Error
      → FramedExtractor H T
      → (F → T → U2 → Fut (Unit {0}) E)
      → FramedRequest F U1
      → Fut (Unit {0}) (FramedError H.Error F)
  mapped_pipeline s t hnd req =
      and_then C (and_then C (s req) (λ r. extracting t.into (extract t r).fut (extract t r).req))
        (λ arg. handling (handle hnd arg))

module _ {H : HttpTypes} {F U1 U2 T E Config : Type 0} (C : Combinators) (J : Joins) where
  -- `FramedRouteBuilder::with`; `t` is the extractor for a configuration.
  unfoldable pub with_next :
      FramedRouteBuilder F U1 U2 H.Error
      → Config
      → (Config → FramedExtractor H T)
      → (F → T → U2 → Fut (Unit {0}) E)
      → FramedRoute F U1 H.Error
  with_next b default t hnd = record {
    service =
        called (λ s. mapped_pipeline C s.0.0 (t s.0.1.cfg) s.1.hnd)
          (J.both _ _ _ (J.both _ _ _ b.service (extract_service (new_extract default)))
            (handle_service (new_handle hnd)));
    pattern = b.pattern;
    methods = b.methods;
    headers = b.headers;
  }

module _ {H : HttpTypes} {F T E Config : Type 0} (C : Combinators) (J : Joins) where
  -- `FramedRoutePatternBuilder::with`.
  unfoldable pub with_handler :
      FramedRoutePatternBuilder
      → Config
      → (Config → FramedExtractor H T)
      → (F → T → Unit {0} → Fut (Unit {0}) E)
      → FramedRoute F (Unit {0}) H.Error
  with_handler b default t hnd = with_service b (
      called (λ s. pipeline C (t s.0.cfg) s.1.hnd)
        (J.both _ _ _ (extract_service (new_extract default)) (handle_service (new_handle hnd))))
