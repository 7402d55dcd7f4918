-- ===== src/Info/Elements.antt =====
-- What the loop over the header Forwarded finds (src/info.rs).
use actix_web.Prelude.{Option, none, some, List, [], ◌∷◌, ◌++◌, ◌≡◌, refl, sym, ap, ◌∙◌}
use actix_web.Prelude.Text.{Text, split, trim}
use actix_web.Info.{
  RequestHead, Forwarded, Name, for_name, proto_name, host_name, other_name, name_of, to_lowercase,
  split_pair, set_name, set_none, add_pair, add_elements, add_pairs, add_headers, or_then,
}

-- The elements of the headers, in their order.
abbrev pub elements_of_pairs : List Text → List Text
elements_of_pairs [] = []
elements_of_pairs (pair ∷ pairs) = split b',' pair ++ elements_of_pairs pairs

abbrev pub elements : List (Option Text) → List Text
elements [] = []
elements (none ∷ hdrs) = elements hdrs
elements (some val ∷ hdrs) = elements_of_pairs (split b';' val) ++ elements hdrs

-- The value of an element that has this name.
abbrev pub if_named : Name → Name → Text → Option Text
if_named for_name for_name val = some (trim val)
if_named proto_name proto_name val = some (trim val)
if_named host_name host_name val = some (trim val)
if_named _ _ val = none

abbrev pub value_in : Name → Text × Option Text → Option Text
value_in key (name, none) = none
value_in key (name, some val) = if_named key (name_of (to_lowercase name)) val

-- The value of the first element with a name.
abbrev pub value : Name → List Text → Option Text
value key [] = none
value key (el ∷ els) = or_then (value_in key (split_pair (trim el))) (value key els)

or_then_assoc : (a b c : Option Text) → or_then (or_then a b) c ≡ or_then a (or_then b c)
or_then_assoc (some x) b c = refl
or_then_assoc none b c = refl

or_then-none : (a : Option Text) → or_then a none ≡ a
or_then-none (some x) = refl
or_then-none none = refl

set_none-or_then : (a : Option Text) (val : Text) → set_none a val ≡ or_then a (some (trim val))
set_none-or_then (some x) val = refl
set_none-or_then none val = refl

-- What was found before, then the first values of the elements.
abbrev with_values : Forwarded → (Name → Option Text) → Forwarded
with_values found v = record {
  host = or_then found.host (v host_name);
  scheme = or_then found.scheme (v proto_name);
  remote = or_then found.remote (v for_name);
}

abbrev forwarded : Option Text → Option Text → Option Text → Forwarded
forwarded host scheme remote = record { host = host; scheme = scheme; remote = remote }

forwarded_eq :
    {a b c a' b' c' : Option Text} → a ≡ a' → b ≡ b' → c ≡ c' → forwarded a b c ≡ forwarded a' b' c'
forwarded_eq p q r = λ i. forwarded (p i) (q i) (r i)

set_name-value :
    (name : Name) (val : Text) (found : Forwarded)
    → set_name name val found ≡ with_values found (λ key. if_named key name val)
set_name-value for_name val found =
    forwarded_eq (sym (or_then-none found.host)) (sym (or_then-none found.scheme))
      (set_none-or_then found.remote val)
set_name-value proto_name val found =
    forwarded_eq (sym (or_then-none found.host)) (set_none-or_then found.scheme val)
      (sym (or_then-none found.remote))
set_name-value host_name val found =
    forwarded_eq (set_none-or_then found.host val) (sym (or_then-none found.scheme))
      (sym (or_then-none found.remote))
set_name-value other_name val found =
    forwarded_eq (sym (or_then-none found.host)) (sym (or_then-none found.scheme))
      (sym (or_then-none found.remote))

add_pair-value :
    (pair : Text × Option Text) (found : Forwarded)
    → add_pair pair found ≡ with_values found (λ key. value_in key pair)
add_pair-value (name, none) found =
    forwarded_eq (sym (or_then-none found.host)) (sym (or_then-none found.scheme))
      (sym (or_then-none found.remote))
add_pair-value (name, some val) found = set_name-value (name_of (to_lowercase name)) val found

add_elements-value :
    (els : List Text) (found : Forwarded)
    → add_elements els found ≡ with_values found (λ key. value key els)
unfolding add_elements
add_elements-value [] found =
    forwarded_eq (sym (or_then-none found.host)) (sym (or_then-none found.scheme))
      (sym (or_then-none found.remote))
add_elements-value (el ∷ els) found =
    add_elements-value els (add_pair (split_pair (trim el)) found)
    ∙ ap (λ f. with_values f (λ key. value key els)) (add_pair-value (split_pair (trim el)) found)
    ∙ forwarded_eq (or_then_assoc found.host _ _) (or_then_assoc found.scheme _ _)
        (or_then_assoc found.remote _ _)

add_elements-append :
    (xs ys : List Text) (found : Forwarded)
    → add_elements (xs ++ ys) found ≡ add_elements ys (add_elements xs found)
unfolding add_elements
add_elements-append [] ys found = refl
add_elements-append (x ∷ xs) ys found =
    add_elements-append xs ys (add_pair (split_pair (trim x)) found)

add_pairs-elements :
    (pairs : List Text) (found : Forwarded)
    → add_pairs pairs found ≡ add_elements (elements_of_pairs pairs) found
unfolding add_pairs add_elements
add_pairs-elements [] found = refl
add_pairs-elements (pair ∷ pairs) found =
    add_pairs-elements pairs (add_elements (split b',' pair) found)
    ∙ sym (add_elements-append (split b',' pair) (elements_of_pairs pairs) found)

add_headers-elements :
    (hdrs : List (Option Text)) (found : Forwarded)
    → add_headers hdrs found ≡ add_elements (elements hdrs) found
unfolding add_headers add_elements
add_headers-elements [] found = refl
add_headers-elements (none ∷ hdrs) found = add_headers-elements hdrs found
add_headers-elements (some val ∷ hdrs) found =
    ap (add_headers hdrs) (add_pairs-elements (split b';' val) found)
    ∙ add_headers-elements hdrs (add_elements (elements_of_pairs (split b';' val)) found)
    ∙ sym (add_elements-append (elements_of_pairs (split b';' val)) (elements hdrs) found)

pub forwarded_found :
    (req : RequestHead)
    → add_headers req.forwarded (record { host = none; scheme = none; remote = none }) ≡ record {
      host = value host_name (elements req.forwarded);
      scheme = value proto_name (elements req.forwarded);
      remote = value for_name (elements req.forwarded);
    }
forwarded_found req =
    add_headers-elements req.forwarded (record { host = none; scheme = none; remote = none })
    ∙ add_elements-value (elements req.forwarded)
        (record { host = none; scheme = none; remote = none })
