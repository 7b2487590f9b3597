-- ===== src/Message.antt =====
-- a17/dispatch/message_helpers.cpp: messages of several parts (`azmq::message_vector`), their
-- equality and their text in the log, and the text of a capnp value. A part is the list of its
-- bytes. What the capnp library says of a dynamic value (its type, its fields, the name of an
-- enumerant) is data; the text of a `double` is the parameter `float_text` of iostream.
pub mod Equality
mod Tests
use general_tools.Common.{
  ℕ, zero, suc, ◌+◌, ◌-◌, ◌/◌, ◌%◌, ◌<◌, Bool, true, false, ◌&&◌, not, Option, none, some, List, [],
  ◌∷◌, ◌++◌, Text, codes, text_eq, is_print, if◌then◌else◌, ltb, leb, ◌==◌, length, take, drop, all,
  min,
}
use general_tools.Common.Decimal.{to_string}
use general_tools.Common.Bytes.{of_bytes}

abbrev pub Message : Type 0
Message = List ℕ

abbrev pub MessageVector : Type 0
MessageVector = List Message

-- The id of a smart message: the first eight bytes of its first part. Where there is no first part or it
-- is shorter, the source reads out of bounds, and there is no id.
unfoldable pub id_from_smart_message : MessageVector → Option ℕ
unfolding of_bytes
id_from_smart_message [] = none
id_from_smart_message (first ∷ rest) =
    if ltb (length first) 8 then none else some (of_bytes (take 8 first))

-- The loop of `operator==` over the parts of two vectors of the same length.
unfoldable pub parts_eq : MessageVector → MessageVector → Bool
parts_eq [] parts = true
parts_eq (m ∷ ms) [] = false
parts_eq (m ∷ ms) (n ∷ ns) =
    if not (length m == length n)
    then false
    else if not (text_eq m n)
    then false
    else parts_eq ms ns

unfoldable pub message_vector_eq : MessageVector → MessageVector → Bool
unfolding parts_eq
message_vector_eq a b = if not (length a == length b) then false else parts_eq a b

unfoldable pub message_vector_ne : MessageVector → MessageVector → Bool
unfolding message_vector_eq
message_vector_ne a b = not (message_vector_eq a b)

abbrev hex_digit : ℕ → ℕ
hex_digit d = if ltb d 10 then 48 + d else 87 + d

-- `sprintf(hex, "%02x", b)`.
abbrev pub hex : ℕ → Text
hex b = hex_digit (b / 16) ∷ hex_digit (b % 16) ∷ []

-- The loop that shows bytes in hexadecimal, from position `i` on.
unfoldable pub stream_hex : ℕ → List ℕ → Text
stream_hex i [] = []
stream_hex i (b ∷ bs) =
    (if ltb 0 i && i % 8 == 0 then b'|' else b' ') ∷ (hex b ++ stream_hex (i + 1) bs)

unfoldable pub stream_message : List ℕ → Text
unfolding stream_hex
stream_message buffer =
    let size = length buffer in
    let cap_size = if ltb size 255 then size else 255 in
    let shown = take cap_size buffer in
    b'['
    ∷ ((if all is_print shown && cap_size == size
          then shown
          else to_string size ++ (codes " bytes:" ++ stream_hex 0 shown))
        ++ ((if ltb cap_size size
              then codes " (" ++ (to_string (size - cap_size) ++ codes " more)")
              else [])
            ++ codes "]"))

-- `operator<<` for a message.
abbrev pub stream_part : Message → Text
stream_part m = stream_message m

-- `operator<<` for a vector: the addresses of the parts, from part `i` on, for what is streamed is
-- `&message_vector[i]`. How an address is written is the argument `pointer_text`.
unfoldable pub stream_vector : (ℕ → Text) → ℕ → MessageVector → Text
stream_vector pointer_text i [] = []
stream_vector pointer_text i (m ∷ ms) =
    let rest = stream_vector pointer_text (i + 1) ms in
    (if ltb 0 i then b' ' ∷ [] else []) ++ (pointer_text i ++ rest)

-- A dynamic value of capnp. A field is there only if the struct has it.
mutual
  pub data DynamicValue : Type 0 where
    void : DynamicValue
    bool : Bool → DynamicValue
    int : Bool → ℕ → DynamicValue
    float : ℕ → DynamicValue
    text : Text → DynamicValue
    list : DynamicList → DynamicValue
    enum : Option Text → ℕ → DynamicValue
    struct : DynamicStruct → DynamicValue
    other : DynamicValue

  pub data DynamicList : Type 0 where
    nil : DynamicList
    cons : DynamicValue → DynamicList → DynamicList

  pub data DynamicStruct : Type 0 where
    end : DynamicStruct
    field : Text → Bool → DynamicValue → DynamicStruct → DynamicStruct

module _ (float_text : ℕ → Text) where
  unfoldable mutual
    -- `operator<<` for a value; `int` has its sign and its magnitude.
    pub stream_value : DynamicValue → Text
    stream_value void = []
    stream_value (bool b) = if b then codes "True" else codes "False"
    stream_value (int negative n) = (if negative then b'-' ∷ [] else []) ++ to_string n
    stream_value (float x) = float_text x
    stream_value (text t) = b'"' ∷ (t ++ codes "\"")
    stream_value (list vs) = b'[' ∷ (stream_list true vs ++ codes "]")
    stream_value (enum (some name) raw) = name
    stream_value (enum none raw) = to_string raw
    stream_value (struct fs) = b'(' ∷ (stream_fields true fs ++ codes ")")
    stream_value other = codes "?"

    pub stream_list : Bool → DynamicList → Text
    stream_list first nil = []
    stream_list first (cons v vs) =
        (if first then [] else codes ", ") ++ (stream_value v ++ stream_list false vs)

    pub stream_fields : Bool → DynamicStruct → Text
    stream_fields first end = []
    stream_fields first (field name has v fs) =
        let rest = stream_fields (if has then false else first) fs in
        (if has then (if first then [] else codes " ") ++ (name ++ (b'=' ∷ stream_value v)) else [])
        ++ rest
