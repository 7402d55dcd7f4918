-- ===== src/Compress/Call/Tests.antt =====
-- Encodings by headers (src/middleware/compress.rs), with qualities in tenths.
use actix_web.Prelude.{
  List, ℕ, ltb, String, none, true, false, ◌≡◌, refl, some, [], ◌∷◌, ok, if◌then◌else◌, arith,
}
use actix_web.Prelude.Text.{Text, codes, same, split}
use actix_web.Futures.{after, ready}
use actix_web.Futures.Drive.{drive}
use actix_web.Compress.{Codec}
use actix_web.Compress.Response.{
  ContentEncoding, auto, identity, deflate, gzip, br, Head, bytes, ready_body, plain,
}
use actix_web.Compress.Accept.{Qualities, AcceptEncoding, parse, new}
use actix_web.Compress.Accept.Tags.{TagsOf}
use actix_web.Compress.Accept.Chosen.{parse-chosen, Greatest}
use actix_web.Compress.Call.{call, poll_compress, drive-call}

abbrev named : Text → ContentEncoding
named s =
    if same s (codes "br")
    then br
    else if same s (codes "gzip")
    then gzip
    else if same s (codes "deflate")
    then deflate
    else identity

abbrev tenths : ContentEncoding → ℕ
tenths br = 11
tenths gzip = 10
tenths deflate = 9
tenths identity = 1
tenths auto = 0

gt_asym : (a b : ℕ) → ltb b a ≡ true → ltb a b ≡ false
gt_asym a b h = ground arith

gt_trans : (a b c : ℕ) → false ≡ false → ltb b a ≡ false → ltb c b ≡ false → ltb c a ≡ false
gt_trans a b c number h k = ground arith

-- "0.5" is a number here, and "q=0.5" is none.
abbrev qualities : Qualities
qualities = record {
  F64 = ℕ;
  gt = λ a b. ltb b a;
  gt_asym = gt_asym;
  is_nan = λ a. false;
  gt_trans = gt_trans;
  zero = 0;
  from_str = λ s. if same s (codes "0.5") then some 5 else none;
  from = named;
  quality = tenths;
}

abbrev header_tags : List (AcceptEncoding qualities)
header_tags =
    record { encoding = gzip; quality = 0 }
    ∷ record { encoding = identity; quality = 1 }
    ∷ record { encoding = deflate; quality = 5 }
    ∷ []

parse-chosen_example :
    (parse qualities (codes "gzip;q=1.0, identity, deflate;0.5") auto ≡ deflate)
    × Greatest qualities (some (record { encoding = deflate; quality = 5 })) header_tags
    × TagsOf qualities (codes "gzip;q=1.0, identity, deflate;0.5") header_tags
unfolding new split
parse-chosen_example =
    parse-chosen qualities (codes "gzip;q=1.0, identity, deflate;0.5") auto
      (refl, (refl, (refl, tt)))

abbrev copying : Codec
copying = record {
  State = Unit {0};
  Error = Unit {0};
  write_all = λ s buf. ok (s, buf);
  finish = λ s. ok (0 ∷ []);
}

abbrev name : ContentEncoding → String
name e = "br"

abbrev plain_head : Head
plain_head = record { status = 200; content_encoding = none; no_chunking = true }

drive-call_example :
    drive (poll_compress copying (λ e. tt) name {E = ℕ}) 3 (
      call qualities auto
        (some (some (codes "gzip, br")))
        (after 2 (ok (plain_head, ready_body (bytes (7 ∷ []))))))
    ≡ ready (record plain_head { content_encoding = some "br" }, plain (bytes (7 ∷ 0 ∷ [])))
unfolding new split
drive-call_example =
    drive-call qualities copying (λ e. tt) name auto (codes "gzip, br") 2 plain_head (7 ∷ [])
      (7 ∷ 0 ∷ []) (refl, (refl, tt)) refl refl refl
