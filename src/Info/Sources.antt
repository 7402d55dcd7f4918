-- ===== src/Info/Sources.antt =====
-- Where each part of a `ConnectionInfo` (src/info.rs) comes from.
use actix_web.Prelude.{Option, none, some, List, [], ◌∷◌, ◌≡◌, refl, ap, ◌∙◌}
use actix_web.Prelude.Text.{Text, codes}
use actix_web.Info.{
  RequestHead, for_name, proto_name, host_name, first_of, text_of, or_then, unwrap_or, https, new,
  remote_of, info_of, find_remote,
}
use actix_web.Info.Elements.{elements, value, forwarded_found}

-- The first source that has a value.
abbrev pub first_some : List (Option Text) → Text → Text
first_some [] other = other
first_some (some x ∷ xs) other = x
first_some (none ∷ xs) other = first_some xs other

abbrev pub first_option : List (Option Text) → Option Text
first_option [] = none
first_option (some x ∷ xs) = some x
first_option (none ∷ xs) = first_option xs

scheme_first :
    (a b c d : Option Text) (other : Text)
    → unwrap_or (or_then a (or_then b (or_then c d))) other ≡ first_some (a ∷ b ∷ c ∷ d ∷ []) other
scheme_first (some a) b c d other = refl
scheme_first none (some b) c d other = refl
scheme_first none none (some c) d other = refl
scheme_first none none none (some d) other = refl
scheme_first none none none none other = refl

host_first :
    (a b c d : Option Text) (server other : Text)
    → unwrap_or (or_then a (or_then b (or_then c (or_then d (some server))))) other
      ≡ first_some (a ∷ b ∷ c ∷ d ∷ []) server
host_first (some a) b c d server other = refl
host_first none (some b) c d server other = refl
host_first none none (some c) d server other = refl
host_first none none none (some d) server other = refl
host_first none none none none server other = refl

remote_first :
    (req : RequestHead) (a : Option Text) (scheme host : Text)
    → remote_of (record {
      scheme = scheme;
      host = host;
      remote = (find_remote req a).0;
      peer = (find_remote req a).1;
    })
      ≡ first_option (a ∷ first_of req.x_forwarded_for ∷ req.peer_addr ∷ [])
remote_first req (some a) scheme host = refl
remote_first req none scheme host = go (first_of req.x_forwarded_for) req.peer_addr
  where
    go :
        (b peer : Option Text)
        → remote_of (record {
          scheme = scheme;
          host = host;
          remote =
              (elim b as (λ o. Option Text × Option Text) [
                | some remote ↦ (some remote, none)
                | none ↦ (none, peer)
              ]).0;
          peer =
              (elim b as (λ o. Option Text × Option Text) [
                | some remote ↦ (some remote, none)
                | none ↦ (none, peer)
              ]).1;
        })
          ≡ first_option (b ∷ peer ∷ [])
    go (some b) peer = refl
    go none (some peer) = refl
    go none none = refl

-- Each part of the information is that of the first source that has it. For the scheme: "proto" of
-- Forwarded, X-Forwarded-Proto, the URI, whether the server is secure, then "http". For the host:
-- "host" of Forwarded, X-Forwarded-Host, Host, the URI, then the server's. For the remote address:
-- "for" of Forwarded, X-Forwarded-For, then the peer. The value in Forwarded is that of the first
-- element with the name, in whatever case it is written, among all elements of all its headers.
pub new-sources :
    (req : RequestHead)
    → ((new req).scheme
        ≡ first_some
            (value proto_name (elements req.forwarded)
              ∷ first_of req.x_forwarded_proto
              ∷ req.scheme_part
              ∷ https req.secure
              ∷ [])
            (codes "http"))
      × ((new req).host
          ≡ first_some
              (value host_name (elements req.forwarded)
                ∷ first_of req.x_forwarded_host
                ∷ text_of req.host_header
                ∷ req.authority_part
                ∷ [])
              req.server_host)
      × (remote_of (new req)
          ≡ first_option (
              value for_name (elements req.forwarded)
              ∷ first_of req.x_forwarded_for
              ∷ req.peer_addr
              ∷ []))
unfolding new
new-sources req = (
  ap (λ f. (info_of req f).scheme) (forwarded_found req)
      ∙ scheme_first (value proto_name (elements req.forwarded)) (first_of req.x_forwarded_proto)
          req.scheme_part (https req.secure) (codes "http"),
  ap (λ f. (info_of req f).host) (forwarded_found req)
      ∙ host_first (value host_name (elements req.forwarded)) (first_of req.x_forwarded_host)
          (text_of req.host_header) req.authority_part req.server_host (codes "localhost"),
  ap (λ f. remote_of (info_of req f)) (forwarded_found req)
      ∙ remote_first req (value for_name (elements req.forwarded)) (codes "http")
          (codes "localhost"),
)
