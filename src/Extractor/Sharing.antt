-- ===== src/Extractor/Sharing.antt =====
-- Which extractor of a tuple (src/extractor.rs) gets the payload of the request.
use actix_web.Prelude.{none, List, [], ◌∷◌, ◌++◌, map, ◌≡◌, refl, ap, ◌∙◌, All}
use actix_web.Futures.{Fut}
use actix_web.Http.{ServiceRequest, absent}
use actix_web.Extractor.{tuple, tuple_from_request}

-- The `from_request` of one part of a tuple.
abbrev pub PartExtract : Type 0 → Type 0 → Type 0 → Type 0
PartExtract P V E = ServiceRequest P → Fut V E × ServiceRequest P

-- A request whose payload was taken.
abbrev pub without {ℓ} : {P : Type ℓ} → ServiceRequest P → ServiceRequest P
without req = record req { payload = absent }

module _ {P V E : Type 0} where
  -- The futures of parts that all see one request.
  abbrev pub futures_at : List (PartExtract P V E) → ServiceRequest P → List (Fut V E)
  futures_at parts req = map (λ p. (p req).0) parts

  -- One part that leaves this request, before others.
  one_more :
      (p : PartExtract P V E) (parts : List (PartExtract P V E)) (req req' : ServiceRequest P)
      (futs : List (Fut V E)) (last : ServiceRequest P)
      → (p req).1 ≡ req'
      → tuple_from_request parts req' ≡ (tuple futs, last)
      → tuple_from_request (p ∷ parts) req ≡ (tuple ((p req).0 ∷ futs), last)
  one_more p parts req req' futs last h k =
      ap
        (λ r. (
          record { item = none; fut = (p req).0 } ∷ (tuple_from_request parts r).0,
          (tuple_from_request parts r).1,
        ))
        h
      ∙ ap (λ q. (record { item = none; fut = (p req).0 } ∷ q.0, q.1)) k

  kept_by_all :
      (parts : List (PartExtract P V E)) (req : ServiceRequest P)
      → All (λ p. (p req).1 ≡ req) parts
      → tuple_from_request parts req ≡ (tuple (futures_at parts req), req)
  kept_by_all [] req h = refl
  kept_by_all (p ∷ parts) req (h, k) =
      one_more p parts req req (futures_at parts req) req h (kept_by_all parts req k)

-- Where one part of a tuple takes the payload, and no part before it does, the parts before it see
-- the request as it came, and so does this part; those behind it see the request without its
-- payload, whether they ask for the payload or not, and so does the handler.
pub tuple_from_request-taken :
    {P V E : Type 0} (before : List (PartExtract P V E)) (taker : PartExtract P V E)
    (behind : List (PartExtract P V E)) (req : ServiceRequest P)
    → All (λ p. (p req).1 ≡ req) before
    → (taker req).1 ≡ without req
    → All (λ p. (p (without req)).1 ≡ without req) behind
    → tuple_from_request (before ++ taker ∷ behind) req ≡ (
      tuple (futures_at before req ++ (taker req).0 ∷ futures_at behind (without req)),
      without req,
    )
tuple_from_request-taken [] taker behind req h k l =
    one_more taker behind req (without req) (futures_at behind (without req)) (without req) k
      (kept_by_all behind (without req) l)
tuple_from_request-taken (p ∷ before) taker behind req (h, h') k l =
    one_more p (before ++ taker ∷ behind) req req
      (futures_at before req ++ (taker req).0 ∷ futures_at behind (without req)) (without req) h
      (tuple_from_request-taken before taker behind req h' k l)
