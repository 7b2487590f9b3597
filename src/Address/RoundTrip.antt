-- ===== src/Address/RoundTrip.antt =====
-- About `Address::parse` and `Address::address` together.
use general_tools.Common.{
  ℕ, suc, ◌+◌, ◌-◌, ◌^◌, ◌<◌, ◌≡◌, refl, ap, subst, ◌∙◌, Bool, true, not, some, [], ◌∷◌, ◌++◌, Text,
  codes, ◌==◌, take, drop, all, length, arith, append_assoc, length-append,
}
use general_tools.Common.Decimal.{to_string, strtol16-to_string}
use general_tools.Address.{Address, make, address, starts_with, find, parse_from, parse}

abbrev pub has_no_colon : Text → Bool
has_no_colon = all (λ c. not (c == b':'))

-- A pattern that begins with a colon is found behind a prefix that has none.
find-colon :
    (ps pre rest : Text) (pos : ℕ)
    → has_no_colon pre ≡ true
    → starts_with ps rest ≡ true
    → find (b':' ∷ ps) (pre ++ b':' ∷ rest) pos ≡ some (pos + length pre)
unfolding find
find-colon ps [] rest pos e s = ground arith
find-colon ps (c ∷ pre) rest pos e s = ground (arith, find-colon ps pre rest (pos + 1))

take-append : (pre rest : Text) → take (length pre) (pre ++ rest) ≡ pre
take-append [] rest = refl
take-append (c ∷ pre) rest = ap (◌∷◌ c) (take-append pre rest)

drop-append : (pre rest : Text) (k : ℕ) → drop (length pre + k) (pre ++ rest) ≡ drop k rest
drop-append [] rest k = ap (λ n. drop n rest) (omega arith)
drop-append (c ∷ pre) rest k =
    let e : suc (length pre) + k ≡ suc (length pre + k) = omega arith in
    rw e (drop-append pre rest k)

parse_from-address :
    (pre protocol ip : Text) (port pos : ℕ)
    → length pre ≡ pos
    → has_no_colon ip ≡ true
    → port < 2 ^ 16
    → parse_from (pre ++ (ip ++ b':' ∷ to_string port)) protocol pos ≡ make protocol ip port
unfolding parse_from starts_with
parse_from-address pre protocol ip port pos e colon fits =
    ground (arith, behind, found, text, number, strtol16-to_string port fits)
  where
    tail : Text
    tail = ip ++ b':' ∷ to_string port

    behind : drop pos (pre ++ tail) ≡ tail
    behind = subst (λ k. drop k (pre ++ tail) ≡ tail) (omega (arith, e)) (drop-append pre tail 0)

    found : find (codes ":") tail pos ≡ some (pos + length ip)
    found = find-colon [] ip (to_string port) pos colon refl

    text : take (pos + length ip - pos) tail ≡ ip
    text = subst (λ k. take k tail ≡ ip) (omega arith) (take-append ip (b':' ∷ to_string port))

    number : drop (pos + length ip + 1) (pre ++ tail) ≡ to_string port
    number =
        subst (λ k. drop k (pre ++ tail) ≡ to_string port) (omega (arith, e))
          (drop-append pre tail (length ip + 1) ∙ drop-append ip (b':' ∷ to_string port) 1)

-- The text of an address is parsed back to its protocol, ip and port, if protocol and ip have no
-- colon. The name of the interface is not in the text.
pub parse-address :
    (a : Address)
    → has_no_colon a.protocol ≡ true
    → has_no_colon a.ip ≡ true
    → a.port < 2 ^ 16
    → parse (address a) ≡ make a.protocol a.ip a.port
unfolding parse address starts_with
parse-address a protocol ip port = ground (arith, found, name, parsed)
  where
    rest : Text
    rest = a.ip ++ b':' ∷ to_string a.port

    found : find (codes "://") (address a) 0 ≡ some (0 + length a.protocol)
    found = find-colon (codes "//") a.protocol (codes "//" ++ rest) 0 protocol refl

    name : take (0 + length a.protocol) (address a) ≡ a.protocol
    name =
        subst (λ k. take k (address a) ≡ a.protocol) (omega arith)
          (take-append a.protocol (codes "://" ++ rest))

    parsed :
        parse_from (address a) a.protocol (0 + length a.protocol + 3) ≡ make a.protocol a.ip a.port
    parsed = rw append_assoc at (
        parse_from-address (a.protocol ++ codes "://") a.protocol a.ip a.port
          (0 + length a.protocol + 3) (omega (arith, length-append a.protocol (codes "://"))) ip
          port)
