-- ===== src/Collections/TypeNames.antt =====
-- ProtocolBufferConverter::typeNameToProtoName
use rsb_cpp.Prelude.{
  ◌≡◌, refl, ap, sym, append-nil, ◌∙◌, false, List, [], ◌∷◌, ◌++◌, Text, All, ◌==◌,
}
use rsb_cpp.Collections.{type_name_to_proto_name, proto_name_loop}

-- The name of a type in nested namespaces, `a::b::C`.
abbrev pub qualified : Text → List Text → Text
qualified name [] = name
qualified name (inner ∷ rest) = name ++ 58 ∷ 58 ∷ qualified inner rest

-- The name of a protobuf message, `.a.b.C`.
abbrev pub proto_name : List Text → Text
proto_name [] = []
proto_name (name ∷ rest) = 46 ∷ name ++ proto_name rest

proto_name_loop-append :
    (name rest : Text)
    → All (λ c. (c == 58) ≡ false) name
    → proto_name_loop false (name ++ rest) ≡ name ++ proto_name_loop false rest
unfolding proto_name_loop
proto_name_loop-append [] rest h = refl
proto_name_loop-append (c ∷ name) rest h =
    rw (proto_name_loop, h.0) (ap (c ∷◌) (proto_name_loop-append name rest h.1))

proto_name_loop-qualified :
    (name : Text) (rest : List Text)
    → All (All (λ c. (c == 58) ≡ false)) (name ∷ rest)
    → 46 ∷ proto_name_loop false (qualified name rest) ≡ proto_name (name ∷ rest)
unfolding proto_name_loop
proto_name_loop-qualified name [] h =
    ap (λ t. 46 ∷ proto_name_loop false t) (sym (append-nil name))
    ∙ ap (46 ∷◌) (proto_name_loop-append name [] h.0)
proto_name_loop-qualified name (inner ∷ rest) h = ap (46 ∷◌) (
    proto_name_loop-append name (58 ∷ 58 ∷ qualified inner rest) h.0
    ∙ ap (name ++◌) (proto_name_loop-qualified inner rest h.1))

-- The names between the `::` of a type's name, none of which has a ':', become those of the message, each
-- behind a dot.
pub type_name_to_proto_name-qualified :
    (name : Text) (rest : List Text)
    → All (All (λ c. (c == 58) ≡ false)) (name ∷ rest)
    → type_name_to_proto_name (qualified name rest) ≡ proto_name (name ∷ rest)
unfolding type_name_to_proto_name
type_name_to_proto_name-qualified name rest h = proto_name_loop-qualified name rest h
