-- ===== src/Base58/Address.antt =====
-- Addresses: a tag and bytes behind it, with a checksum that both ends compute alike.
use naza.Common.{ℕ, zero, suc, ◌-◌, ◌^◌, ◌<◌}
use naza.Common.{◌≡◌, refl, sym, ap, ◌∙◌, ◌⊎◌, inl, inr, arith}
use naza.Common.{true, false, not, leb}
use naza.Common.{some, List, [], ◌∷◌, ◌++◌}
use naza.Common.{length, length-append, take, drop, All}
use naza.Common.{take-append, drop-append, take-append-drop, length-take}
use naza.Common.{All-append, All-take, IsByte}
use mathlib.Core.Path.{ap₂}
use naza.Common.Options.{>>=-eq-some, guard, guard-eq-some}
use naza.Varint.{ReadCode, write_varint, read_varint}
use naza.Varint.Write.{write_varint-IsByte}
use naza.Varint.Read.{read_varint-write_varint}
use naza.Varint.Canonical.{read_varint_sound, HasMore, counted}
use naza.Base58.{same_bytes, encode, decode, accept_tag}
use naza.Base58.{encode_addr, decode_addr}
use naza.Base58.RoundTrip.{decode-encode, encode-decode}

same_bytes_refl : (xs : List ℕ) → same_bytes xs xs ≡ true
same_bytes_refl [] = refl
same_bytes_refl (x ∷ xs) = ground (arith, same_bytes_refl xs)

same_bytes→eq : (xs ys : List ℕ) → same_bytes xs ys ≡ true → xs ≡ ys
same_bytes→eq [] [] h = refl
same_bytes→eq [] (y ∷ ys) h = cc
same_bytes→eq (x ∷ xs) [] h = cc
same_bytes→eq (x ∷ xs) (y ∷ ys) h =
    ap₂ (λ (a : ℕ) (as' : List ℕ). a ∷ as') (ground arith) (same_bytes→eq xs ys (ground arith))

-- What the addresses rely on: the hash is 32 bytes long.
pub record IsHash (cn_fast_hash : List ℕ → List ℕ) : Type 0 where
  pub size : (xs : List ℕ) → length (cn_fast_hash xs) ≡ 32
  pub bytes : (xs : List ℕ) → All IsByte (cn_fast_hash xs)

-- The checks of the decoder, in the order of the code, over bytes whose checksum is theirs.
body_accepted :
    (cn_fast_hash : List ℕ → List ℕ) (addr buf check : List ℕ)
    → decode addr ≡ some (buf ++ check)
    → length check ≡ 4
    → 0 < length buf
    → take 4 (cn_fast_hash buf) ≡ check
    → decode_addr cn_fast_hash addr ≡ accept_tag (read_varint 64 buf)
unfolding decode_addr
body_accepted cn addr buf check decoded four pos sum =
    let whole = length-append buf check in
    let long : leb (length (buf ++ check)) 4 ≡ false = ground (arith, whole) in
    let cut : length (buf ++ check) - 4 ≡ length buf = omega arith in
    rw
      (
        decoded,
        long,
        cut,
        take-append buf check (length buf) refl,
        drop-append buf check (length buf) refl,
        sum,
        same_bytes_refl check,
      )
      refl

accepted_tag :
    (c : ReadCode) (v : ℕ) (rest : List ℕ) (tag : ℕ) (bytes : List ℕ)
    → accept_tag (record { code = c; value = v; rest = rest }) ≡ some (tag, bytes)
    → (n : ℕ) × (record { code = c; value = v; rest = rest } ≡ counted n tag bytes)
accepted_tag (ReadCode.count zero) v rest tag bytes e = cc
accepted_tag (ReadCode.count (suc n)) v rest tag bytes e = (suc n, ground arith)
accepted_tag ReadCode.overflow v rest tag bytes e = cc
accepted_tag ReadCode.non_canonical v rest tag bytes e = cc

module _ (cn_fast_hash : List ℕ → List ℕ) where
  tagged :
      (tag : ℕ) (body bytes addr : List ℕ) (n : ℕ)
      → All IsByte body
      → read_varint 64 body ≡ counted n tag bytes
      → addr ≡ encode (body ++ take 4 (cn_fast_hash body))
      → ((tag < 2 ^ 64) × (addr ≡ encode_addr cn_fast_hash tag bytes))
        ⊎ ((bytes ≡ [])
            × (body : List ℕ) × All HasMore body
            × (addr ≡ encode (body ++ take 4 (cn_fast_hash body))))
  unfolding read_varint encode_addr
  tagged tag body bytes addr n all read whole =
      elim (read_varint_sound 64 64 n tag body bytes (omega arith) all read) [
        | inl (fits, split, count) ↦
            inl (fits, whole ∙ ap (λ (t : List ℕ). encode (t ++ take 4 (cn_fast_hash t))) split)
        | inr (none_left, count, more) ↦ inr (none_left, body, more, whole)
      ]

module _ (cn_fast_hash : List ℕ → List ℕ) (hash : IsHash cn_fast_hash) where
  -- For a hash of 32 bytes: decoding the address of a 64-bit tag and any bytes gives back the tag
  -- and the bytes.
  pub decode_addr-encode_addr :
      (tag : ℕ) (bytes : List ℕ)
      → tag < 2 ^ 64
      → All IsByte bytes
      → decode_addr cn_fast_hash (encode_addr cn_fast_hash tag bytes) ≡ some (tag, bytes)
  unfolding encode_addr read_varint
  decode_addr-encode_addr tag bytes ht hb =
      let buf = write_varint tag ++ bytes in
      let check = take 4 (cn_fast_hash buf) in
      let (tag_bytes, tag_pos) = write_varint-IsByte tag in
      let all =
        All-append IsByte buf check (All-append IsByte (write_varint tag) bytes tag_bytes hb)
          (All-take IsByte 4 (cn_fast_hash buf) (hash.bytes buf)) in
      let four = length-take 4 (cn_fast_hash buf) (omega (arith, hash.size buf)) in
      let read = read_varint-write_varint 64 64 tag bytes (omega arith) ht in
      body_accepted cn_fast_hash (encode (buf ++ check)) buf check
        (decode-encode (buf ++ check) all) four
        (omega (arith, length-append (write_varint tag) bytes)) refl
      ∙ ap accept_tag read
      ∙ accepted tag bytes (length (write_varint tag)) tag_pos
    where
      accepted :
          (tag : ℕ) (bytes : List ℕ) (n : ℕ)
          → 0 < n
          → accept_tag (record { code = ReadCode.count n; value = tag; rest = bytes })
            ≡ some (tag, bytes)
      accepted tag bytes zero h = absurd (omega arith)
      accepted tag bytes (suc n) h = refl

  -- For a hash of 32 bytes: an accepted text is the address of its tag, below 2^64, and its bytes,
  -- or its tag is cut off: then every byte before the checksum announces another one, and the
  -- address has no bytes of its own.
  pub decode_addr_sound :
      (tag : ℕ) (addr bytes : List ℕ)
      → All IsByte addr
      → decode_addr cn_fast_hash addr ≡ some (tag, bytes)
      → ((tag < 2 ^ 64) × (addr ≡ encode_addr cn_fast_hash tag bytes))
        ⊎ ((bytes ≡ [])
            × (body : List ℕ) × All HasMore body
            × (addr ≡ encode (body ++ take 4 (cn_fast_hash body))))
  unfolding decode_addr
  decode_addr_sound tag addr bytes ha e =
      let (addr_data, e1, e2) = >>=-eq-some (decode addr) _ e in
      let n = length addr_data - 4 in
      let body = take n addr_data in
      let check = drop n addr_data in
      let (u, long, e3) = >>=-eq-some (guard (not (leb (length addr_data) 4))) _ e2 in
      let (u', sum, e4) =
        >>=-eq-some (guard (same_bytes (take 4 (cn_fast_hash body)) check)) _ e3 in
      let same = same_bytes→eq _ _ (guard-eq-some _ sum) in
      let (text, all) = encode-decode addr addr_data ha e1 in
      let (count, read) = accepted_tag (read_varint 64 body).code _ _ tag bytes e4 in
      let whole : addr ≡ encode (body ++ take 4 (cn_fast_hash body)) =
        sym text
        ∙ ap encode (sym (take-append-drop n addr_data) ∙ ap (λ t. body ++ t) (sym same)) in
      tagged cn_fast_hash tag body bytes addr count (All-take IsByte n addr_data all) read whole
