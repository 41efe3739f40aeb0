-- ===== src/Text/Ip.antt =====
-- `str::parse::<IpAddr>` of the standard library, as far as the program asks: whether a text is an
-- address. Each reader returns what it did not read.
use tlscope_rs.Base.{
  ℕ, zero, suc, ◌+◌, ◌-◌, ◌*◌, ◌≡◌, refl, Bool, true, false, not, ◌&&◌, ◌||◌, [], ◌∷◌, Option, none,
  some, ltb, leb, ◌==◌, if◌then◌else◌, is_empty,
}
use tlscope_rs.Text.{Text, text}

digit : ℕ → Option ℕ
digit c =
    if leb b'0' c && leb c b'9'
    then some (c - b'0')
    else if leb b'a' c && leb c b'f'
    then some (c - b'a' + 10)
    else if leb b'A' c && leb c b'F'
    then some (c - b'A' + 10)
    else none

is_digit_of : ℕ → ℕ → Bool
unfolding digit
is_digit_of radix c = elim (digit c) [ none ↦ false | some d ↦ ltb d radix ]

digit_value : ℕ → ℕ
unfolding digit
digit_value c = elim (digit c) [ none ↦ 0 | some d ↦ d ]

-- The digits read so far and their value.
read_digits : ℕ → Text → ℕ → ℕ → ℕ × ℕ × Text
read_digits radix [] count value = (count, value, [])
read_digits radix (c ∷ s) count value =
    let more = read_digits radix s (count + 1) (value * radix + digit_value c) in
    if is_digit_of radix c then more else (count, value, c ∷ s)

starts_zero : Text → Bool
starts_zero [] = false
starts_zero (c ∷ s) = c == b'0'

-- At most `max_digits`, below the bound; a leading zero only if allowed or alone.
read_number : ℕ → ℕ → Bool → ℕ → Text → Option Text
unfolding read_digits is_digit_of digit_value starts_zero
read_number radix max_digits allow_zero_prefix bound s =
    let (count, value, rest) = read_digits radix s 0 0 in
    if (count == 0)
      || ltb max_digits count
      || leb bound value
      || (not allow_zero_prefix && starts_zero s && ltb 1 count)
    then none
    else some rest

read_char : ℕ → Text → Option Text
read_char c [] = none
read_char c (d ∷ s) = if c == d then some s else none

after : Option Text → (Text → Option Text) → Option Text
after none f = none
after (some s) f = f s

octet : Text → Option Text
unfolding read_number
octet = read_number 10 3 false 256

dotted_octet : Text → Option Text
unfolding octet read_char after
dotted_octet s = after (read_char b'.' s) octet

read_ipv4 : Text → Option Text
unfolding dotted_octet octet after
read_ipv4 s = after (after (after (octet s) dotted_octet) dotted_octet) dotted_octet

separated : ℕ → (Text → Option Text) → Text → Option Text
unfolding read_char after
separated index inner s = if index == 0 then inner s else after (read_char b':' s) inner

group : Text → Option Text
unfolding read_number
group = read_number 16 4 true 65536

-- How many groups were read, whether the last two were an IPv4 address, and the rest. The first
-- argument is the groups left, the second `index`.
read_groups : ℕ → ℕ → Text → ℕ × Bool × Text
unfolding separated read_ipv4 group
read_groups zero index s = (index, false, s)
read_groups (suc left) index s = elim (if left == 0 then none else separated index read_ipv4 s) [
  | some rest ↦ (index + 2, true, rest)
  | none ↦ elim (separated index group s) [
    | none ↦ (index, false, s)
    | some rest ↦ read_groups left (index + 1) rest
  ]
]

ends : Option Text → Bool
ends none = false
ends (some s) = is_empty s

unfoldable pub is_ipv6 : Text → Bool
unfolding read_groups read_char after ends
is_ipv6 s =
    let (size, ipv4, rest) = read_groups 8 0 s in
    if size == 8
    then is_empty rest
    else if ipv4
    then false
    else ends (
        after (after (read_char b':' rest) (read_char b':'))
          λ t. some (read_groups (8 - (size + 1)) 0 t).2)

unfoldable pub is_ipv4 : Text → Bool
unfolding read_ipv4 ends
is_ipv4 s = ends (read_ipv4 s)

-- `parse::<IpAddr>().is_ok()`.
unfoldable pub is_ip : Text → Bool
unfolding is_ipv4 is_ipv6
is_ip s = is_ipv4 s || is_ipv6 s

loopback : is_ip (text "::1") ≡ true
unfolding is_ip text
loopback = refl

mapped : is_ip (text "::ffff:10.0.0.1") ≡ true
unfolding is_ip text
mapped = refl

full : is_ip (text "2001:db8:0:1:1:1:1:1") ≡ true
unfolding is_ip text
full = refl

named : is_ip (text "a.example.com:80") ≡ false
unfolding is_ip text
named = refl

too_long : is_ip (text "1:2:3:4:5:6:7:8:9") ≡ false
unfolding is_ip text
too_long = refl

leading_zero : is_ip (text "10.0.01.1") ≡ false
unfolding is_ip text
leading_zero = refl
