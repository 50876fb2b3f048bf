-- ===== src/Tunnel/Proxy/Rewriting.antt =====
-- What becomes of the head of an HTTP request: its lines, its target and the head that is passed on.
use mathlib.Core.List.{append_assoc}
use shin_vpn.Prelude.{
  ℕ, Bytes, List, [], ◌∷◌, ◌++◌, All, false, none, some, ok, ◌≡◌, refl, sym, ap, ◌∙◌, arith,
  Bool-cases, inl, inr,
}
use shin_vpn.Prelude.Errors.{◌>>=◌, >>=-eq-ok}
use shin_vpn.Prelude.Utf8.{Text, codes, encode, encode_one}
use shin_vpn.Prelude.Decimal.{has_char}
use shin_vpn.Prelude.Int.{pos}
use shin_vpn.Prelude.Search.{starts_with, split_lines, join_lines, split_once}
use shin_vpn.Tunnel.Domain.{lower}
use shin_vpn.Tunnel.Proxy.Http.{
  host_and_port, until_slash, until_newline, after_scheme, match_here, search_url, filtered_lines,
  is_proxy_header, reconstructed_header,
}

abbrev pub Free : ℕ → Text → Type 0
Free c t = has_char c t ≡ false

abbrev pub line_end : Text
line_end = 13 ∷ 10 ∷ []

-- The end of a head.
abbrev pub head_end : Text
head_end = 13 ∷ 10 ∷ 13 ∷ 10 ∷ []

split_lines-line :
    (l rest : Text) → Free 13 l → split_lines (l ++ (13 ∷ 10 ∷ rest)) ≡ l ∷ split_lines rest
unfolding split_lines
split_lines-line [] rest h = refl
split_lines-line (c ∷ []) rest h = ground arith
split_lines-line (c ∷ d ∷ l) rest h = ground (arith, split_lines-line (d ∷ l) rest)

-- The lines of a head, and the two empty ones behind its end.
pub split_lines-head :
    (l : Text) (ls : List Text)
    → All (Free 13) (l ∷ ls)
    → split_lines (join_lines (l ∷ ls) ++ head_end) ≡ (l ∷ ls) ++ ([] ∷ [] ∷ [])
unfolding join_lines
split_lines-head l [] h = split_lines-line l line_end h.0 ∙ ap (◌∷◌ l) (unfold split_lines in refl)
split_lines-head l (k ∷ ls) h = rw append_assoc (
    split_lines-line l (join_lines (k ∷ ls) ++ head_end) h.0
    ∙ ap (◌∷◌ l) (split_lines-head k ls h.1))

pub join_lines-head :
    (l : Text) (ls : List Text)
    → join_lines ((l ∷ ls) ++ ([] ∷ [] ∷ [])) ≡ join_lines (l ∷ ls) ++ head_end
unfolding join_lines
join_lines-head l [] = refl
join_lines-head l (k ∷ ls) = rw (join_lines-head k ls, append_assoc)

filtered_lines-append :
    (ls : List Text) → filtered_lines (ls ++ ([] ∷ [] ∷ [])) ≡ filtered_lines ls ++ ([] ∷ [] ∷ [])
unfolding filtered_lines starts_with lower
filtered_lines-append [] = refl
filtered_lines-append (l ∷ ls) = elim (Bool-cases (is_proxy_header l)) [
  | inl h ↦ rw h (filtered_lines-append ls)
  | inr h ↦ rw h (ap (◌∷◌ l) (filtered_lines-append ls))
]

filtered_lines-own :
    (l : Text) (ls : List Text)
    → is_proxy_header l ≡ false
    → filtered_lines (l ∷ ls) ≡ l ∷ filtered_lines ls
unfolding filtered_lines
filtered_lines-own l ls h = rw h

head_end-encode : encode head_end ≡ ok head_end
unfolding encode encode_one
head_end-encode = refl

encode-append :
    (s t : Text) (x y : Bytes) → encode s ≡ ok x → encode t ≡ ok y → encode (s ++ t) ≡ ok (x ++ y)
unfolding encode
encode-append [] t x y h k = rw (k) (cc)
encode-append (c ∷ s) t x y h k =
    let (b, one, h') = >>=-eq-ok (encode_one c) (λ b. encode s >>= λ rest. ok (b ++ rest)) h in
    let (rest, others, whole) = >>=-eq-ok (encode s) (λ rest. ok (b ++ rest)) h' in
    let whole' : b ++ rest ≡ x = cc in
    rw (one, encode-append s t rest y others k)
      (ap ok (sym (append_assoc b rest y) ∙ ap (λ z. z ++ y) whole'))

until_slash-append :
    (host path : Text) → Free 47 host → until_slash (host ++ (47 ∷ path)) ≡ (host, 47 ∷ path)
unfolding until_slash
until_slash-append [] path h = refl
until_slash-append (c ∷ host) path h = ground (arith, until_slash-append host path)

until_newline_of_Free : (t : Text) → Free 10 t → until_newline t ≡ t
unfolding until_newline
until_newline_of_Free [] h = refl
until_newline_of_Free (c ∷ t) h = ground (arith, until_newline_of_Free t)

match_here-http :
    (h : ℕ) (host path : Text)
    → Free 47 (h ∷ host)
    → Free 10 (47 ∷ path)
    → match_here (codes "http://" ++ ((h ∷ host) ++ (47 ∷ path))) ≡ some (h ∷ host, 47 ∷ path)
unfolding match_here starts_with
match_here-http h host path free plain =
    ap after_scheme (until_slash-append (h ∷ host) path free)
    ∙ ap (λ t. some (h ∷ host, t)) (until_newline_of_Free (47 ∷ path) plain)

-- A target with a host and a path is taken apart.
pub search_url-http :
    (h : ℕ) (host path : Text)
    → Free 47 (h ∷ host)
    → Free 10 (47 ∷ path)
    → search_url (codes "http://" ++ ((h ∷ host) ++ (47 ∷ path))) ≡ some (h ∷ host, 47 ∷ path)
unfolding search_url
search_url-http h host path free plain = rw (match_here-http h host path free plain, search_url)

split_once_of_Free : (d : ℕ) (t : Text) → Free d t → split_once d t ≡ none
unfolding split_once
split_once_of_Free d [] h = refl
split_once_of_Free d (c ∷ t) h = ground (arith, split_once_of_Free d t)

-- A host with no port has the protocol's port.
pub host_and_port_of_Free :
    (default_port : ℕ) (t : Text)
    → Free 58 t
    → host_and_port default_port t ≡ ok (t, pos default_port)
unfolding host_and_port
host_and_port_of_Free default_port t h = rw (split_once_of_Free 58 t h, host_and_port)

-- The head that is passed on: the new request line and the lines that are not the proxy's, and its
-- end twice.
pub reconstructed_header-head :
    (method path_part version : Text) (ls : List Text) (bytes : Bytes)
    → let line = method ++ (32 ∷ (path_part ++ (32 ∷ version))) in
      is_proxy_header line ≡ false
      → encode (join_lines (line ∷ filtered_lines ls)) ≡ ok bytes
      → reconstructed_header method path_part (version ∷ []) (ls ++ ([] ∷ [] ∷ []))
        ≡ ok (bytes ++ (head_end ++ head_end))
unfolding reconstructed_header
reconstructed_header-head method path_part version ls bytes own encoded =
    let line = method ++ (32 ∷ (path_part ++ (32 ∷ version))) in
    let kept : filtered_lines (line ∷ (ls ++ ([] ∷ [] ∷ [])))
        ≡ (line ∷ filtered_lines ls) ++ ([] ∷ [] ∷ []) =
      filtered_lines-own line (ls ++ ([] ∷ [] ∷ [])) own
      ∙ ap (◌∷◌ line) (filtered_lines-append ls) in
    let whole : encode (join_lines (filtered_lines (line ∷ (ls ++ ([] ∷ [] ∷ [])))))
        ≡ ok (bytes ++ head_end) =
      ap (λ l. encode (join_lines l)) kept
      ∙ ap encode (join_lines-head line (filtered_lines ls))
      ∙ encode-append (join_lines (line ∷ filtered_lines ls)) head_end bytes head_end encoded
          head_end-encode in
    rw (whole, reconstructed_header) (ap ok (append_assoc bytes head_end head_end))
