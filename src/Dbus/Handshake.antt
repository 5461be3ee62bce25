-- ===== src/Dbus/Handshake.antt =====
-- The connection of tools/src/dbus_client.c: the line of the authentication, and the name of the
-- socket in an address.
use lg_magic.Dbus.Connect.{
  until, addresses, begins, socket_of, first_socket, pick_unix_socket, hex_bytes, auth_line,
}
use lg_magic.Json.Parser.{strip}
use lg_magic.Json.Writer.{hex_digit}
use lg_magic.Kernel.Probe.{codes}
use lg_magic.Prelude.{
  ℕ, ◌+◌, ◌*◌, ◌-◌, ◌/◌, ◌%◌, ◌<◌, ◌≡◌, ◌≢◌, refl, ap, ◌∙◌, Bool, true, false, some, List, [], ◌∷◌,
  ◌++◌, ◌==◌, ltb, leb, if◌then◌else◌, length, All, Bool-cases, ==_iff, arith, inl, inr,
}

-- The value of a digit in base 16, and the bytes that pairs of digits stand for.
unfoldable pub digit_value : ℕ → ℕ
digit_value c = if ltb c 58 then c - 48 else c - 87

unfoldable pub unhex : List ℕ → List ℕ
unhex [] = []
unhex (h ∷ []) = []
unhex (h ∷ l ∷ rest) = (16 * digit_value h + digit_value l) ∷ unhex rest

digit_value-hex_digit : (d : ℕ) → d < 16 → digit_value (hex_digit d) ≡ d
unfolding digit_value hex_digit
digit_value-hex_digit d small = ground arith

unhex-hex_bytes : (s : List ℕ) → All (λ b. b < 256) s → unhex (hex_bytes s) ≡ s
unfolding unhex hex_bytes
unhex-hex_bytes [] small = refl
unhex-hex_bytes (b ∷ bs) (fits, small) =
    rw
      (
        digit_value-hex_digit (b / 16 % 16) (omega arith),
        digit_value-hex_digit (b % 16) (omega arith),
        unhex-hex_bytes bs small,
      )
      (ap (λ x. x ∷ bs) (omega (arith, fits)))

length-hex_bytes : (s : List ℕ) → length (hex_bytes s) ≡ 2 * length s
unfolding hex_bytes
length-hex_bytes [] = omega arith
length-hex_bytes (b ∷ bs) = omega (arith, length-hex_bytes bs)

-- The line of the authentication is made for a uid of 23 digits at the most, and holds its digits:
-- it is a NUL, the words AUTH EXTERNAL, digits in base 16 that stand for the bytes of the uid, and
-- the end of a line.
pub auth_line_lem :
    (dec : List ℕ)
    → All (λ b. b < 256) dec
    → length dec < 24
    → (hex : List ℕ) × (auth_line dec
        ≡ some (0 ∷ (codes "AUTH EXTERNAL " ++ (hex ++ 13 ∷ 10 ∷ []))))
      × (unhex hex ≡ dec)
      × (length hex ≡ 2 * length dec)
unfolding auth_line
auth_line_lem dec small short =
    let no_long : leb 24 (length dec) ≡ false = ground (arith, short) in
    let fits : ltb 64 (1 + 14 + 2 * length dec + 2) ≡ false = ground (arith, short) in
    (
      hex_bytes dec,
      rw (no_long, fits, auth_line) refl,
      unhex-hex_bytes dec small,
      length-hex_bytes dec,
    )

-- A name with no sign that ends it.
unfoldable pub IsName : List ℕ → Type 0
IsName name = All (λ b. (b ≢ b',') × (b ≢ b';')) name

differs : (b stop : ℕ) → b ≢ stop → (b == stop) ≡ false
differs b stop other = elim (Bool-cases (b == stop)) [
  | inl same ↦ absurd (other ((==_iff b stop).0 same))
  | inr apart ↦ apart
]

until-IsName : (name : List ℕ) → IsName name → until b',' name ≡ name
unfolding until IsName
until-IsName [] clean = refl
until-IsName (b ∷ bs) ((no_comma, no_semicolon), clean) =
    rw (differs b b',' no_comma, until-IsName bs clean) refl

addresses-IsName : (name : List ℕ) → IsName name → addresses name ≡ (name, [])
unfolding addresses IsName
addresses-IsName [] clean = refl
addresses-IsName (b ∷ bs) ((no_comma, no_semicolon), clean) =
    rw (differs b b';' no_semicolon, addresses-IsName bs clean) refl

socket_of_abstract :
    (name : List ℕ)
    → IsName name
    → socket_of (codes "unix:abstract=" ++ name) ≡ some (true, b'=' ∷ name)
unfolding socket_of begins strip until
socket_of_abstract name clean =
    let long : ltb 10 (length (codes "unix:abstract=" ++ name)) ≡ true = ground arith in
    let longer : ltb 13 (length (codes "unix:abstract=" ++ name)) ≡ true = ground arith in
    rw (long, longer, until-IsName name clean) refl

one_address :
    (name : List ℕ)
    → IsName name
    → addresses (codes "unix:abstract=" ++ name) ≡ (codes "unix:abstract=" ++ name, [])
unfolding addresses
one_address name clean = rw (addresses-IsName name clean) refl

first_socket_one :
    (address : List ℕ) (found : Bool × List ℕ)
    → socket_of address ≡ some found
    → first_socket (address ∷ []) ≡ some found
unfolding first_socket
first_socket_one address found is = rw (is, first_socket) refl

-- The name of an abstract socket is taken with the sign = in front, for each name without a comma
-- or a semicolon.
pub pick_unix_socket_abstract :
    (name : List ℕ)
    → IsName name
    → pick_unix_socket (codes "unix:abstract=" ++ name) ≡ some (true, b'=' ∷ name)
unfolding pick_unix_socket
pick_unix_socket_abstract name clean =
    ap (λ (first, others). first_socket (first ∷ others)) (one_address name clean)
    ∙ first_socket_one _ _ (socket_of_abstract name clean)
