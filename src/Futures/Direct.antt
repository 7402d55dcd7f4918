-- ===== src/Futures/Direct.antt =====
-- Combinators that meet what is asked of them, for tests.
use actix_web.Prelude.{Result, refl}
use actix_web.Futures.{Fut, later, now, spent}
use actix_web.Futures.Combinators.{Combinators}

abbrev chain : (A B E F : Type 0) → Fut A E → (Result A E → Fut B F) → Fut B F
chain A B E F (later f) k = later (chain A B E F f k)
chain A B E F (now r) k = k r
chain A B E F spent k = spent

abbrev pub direct : Combinators
direct = record {
  chain = chain;
  chain-later = λ A B E F f k. refl;
  chain-now = λ A B E F r k. refl;
}
