-- ===== src/Logger/Line.antt =====
-- What a log line is, by its format (src/middleware/logger.rs).
use actix_web.Prelude.{ℕ, Option, none, some, List, [], ◌∷◌, ◌++◌, length, ◌≡◌, ◌⊎◌}
use actix_web.Prelude.Text.{Text, codes}
use actix_web.Logger.{FormatText, or_dash, Capture, slice, Entry, render, log}

-- The query of a request, as it stands behind the path.
abbrev pub asked : Text → Text
asked [] = []
asked (c ∷ query) = codes "?" ++ c ∷ query

-- What a match of the regular expression stands for in a line: "%{k}i", "%{k}o" and "%{k}e" for a
-- header of the request or of the response or a variable, a letter for what the documentation says of
-- it, but "P" for itself, and a "%" without a letter for nothing.
abbrev pub HeaderValue : Entry → Text → Text → Text → Type 0
HeaderValue e key kind v =
    ((kind ≡ codes "i") × (v ≡ or_dash (e.request_headers key)))
    ⊎ ((kind ≡ codes "o") × (v ≡ or_dash (e.response_headers key)))
    ⊎ ((kind ≡ codes "e") × (v ≡ or_dash (e.env key)))

abbrev pub LetterValue : Entry → Text → Text → Type 0
LetterValue e letter v =
    ((letter ≡ []) × (v ≡ []))
    ⊎ ((letter ≡ codes "a") × (v ≡ or_dash e.remote))
    ⊎ ((letter ≡ codes "t") × (v ≡ e.started))
    ⊎ ((letter ≡ codes "P") × (v ≡ codes "P"))
    ⊎ ((letter ≡ codes "r")
        × (v
            ≡ e.method
              ++ (codes " " ++ ((e.path ++ asked e.query_string) ++ (codes " " ++ e.version)))))
    ⊎ ((letter ≡ codes "s") × (v ≡ e.status))
    ⊎ ((letter ≡ codes "b") × (v ≡ e.size))
    ⊎ ((letter ≡ codes "T") × (v ≡ e.seconds))
    ⊎ ((letter ≡ codes "D") × (v ≡ e.millis))

abbrev pub Value : Entry → Option (Text × Text) → Text → Text → Type 0
Value e none letter v = LetterValue e letter v
Value e (some (key, kind)) letter v = HeaderValue e key kind v

-- The values of the matches, in their order.
abbrev pub Values : Entry → List Capture → List Text → Type 0
Values e [] [] = Unit
Values e [] (v ∷ vs) = ⊥
Values e (cap ∷ caps) [] = ⊥
Values e (cap ∷ caps) (v ∷ vs) = Value e cap.key cap.group v × Values e caps vs

-- The format from `idx` on, with each match replaced by its value.
abbrev pub replaced : Text → ℕ → List Capture → List Text → Text
replaced s idx (cap ∷ caps) (v ∷ vs) = slice s idx cap.start ++ (v ++ replaced s cap.end caps vs)
replaced s idx [] vs = slice s idx (length s)
replaced s idx (cap ∷ caps) [] = slice s idx (length s)

-- A unit that is rendered to this.
abbrev UnitFor : Entry → Option FormatText → Text → Type 0
UnitFor e found v = (unit : FormatText) × (found ≡ some unit) × (render e unit ≡ v)

module _ (e : Entry) (s : Text) where
  -- Units, and the line that they are rendered to.
  abbrev Renders : Option (List FormatText) → Text → Type 0
  Renders units line = (us : List FormatText) × (units ≡ some us) × (log e us ≡ line)
