-- ===== src/Handshake/Extensions/RoundTrip.antt =====
-- What the parser makes of the lists that `add_extension` writes.
use wispurr.Base.{
  ℕ, zero, suc, ◌+◌, ◌/◌, ◌%◌, ◌^◌, ◌<◌, ◌≡◌, refl, sym, ◌∙◌, List, [], ◌∷◌, ◌++◌, length, arith,
  length-append, take-append, drop-append, append_assoc, append-nil, inl, inr,
}
use wispurr.Base.Bytes.{byte, le32, put_le32}
use wispurr.Handshake.Extensions.Bounds.{Read-cases}
use wispurr.Handshake.Extensions.{
  Extensions, no_extensions, add_extension, read_extension, parse_extensions, parse_client_info,
  Parsed, parsed, error_invalid, panics, reads, malformed, overruns,
}

-- Entries as the pairs of an identifier and its metadata, and a list of them as it is written.
abbrev pub Entries : Type 0
Entries = List (ℕ × List ℕ)

abbrev pub write_entries : List ℕ → Entries → List ℕ
write_entries buf [] = buf
write_entries buf ((id, meta) ∷ es) = write_entries (add_extension buf id meta) es

-- What the entries say, read in order.
abbrev pub read_entries : Entries → Extensions → Parsed
read_entries [] exts = parsed exts
read_entries ((id, meta) ∷ es) exts = elim (read_extension id meta exts) [
  | malformed ↦ error_invalid
  | overruns ↦ panics
  | reads exts' ↦ read_entries es exts'
]

abbrev encoded : Entries → List ℕ
encoded [] = []
encoded ((id, meta) ∷ es) = id ∷ (put_le32 (length meta % 2 ^ 32) ++ (meta ++ encoded es))

write_entries-encoded : (buf : List ℕ) (es : Entries) → write_entries buf es ≡ buf ++ encoded es
unfolding add_extension
write_entries-encoded buf [] = sym (append-nil buf)
write_entries-encoded buf ((id, meta) ∷ es) =
    write_entries-encoded (add_extension buf id meta) es ∙ simp append_assoc

parse_extensions-encoded :
    (fuel : ℕ) (es : Entries) (exts : Extensions)
    → length (encoded es) < fuel
    → length (encoded es) < 2 ^ 32
    → parse_extensions fuel (encoded es) exts ≡ read_entries es exts
unfolding parse_extensions
parse_extensions-encoded zero es exts f h = absurd (omega arith)
parse_extensions-encoded (suc fuel) [] exts f h = refl
parse_extensions-encoded (suc fuel) ((id, meta) ∷ es) exts f h =
    elim (Read-cases (read_extension id meta exts)) [
      | inl e ↦ ground (arith, len, fits, take-append meta (encoded es))
      | inr (inl e) ↦ ground (arith, len, fits, take-append meta (encoded es))
      | inr (inr (exts', e)) ↦ ground (
        arith,
        len,
        fits,
        take-append meta (encoded es),
        drop-append meta (encoded es),
        parse_extensions-encoded fuel es exts',
      )
    ]
  where
    fits : length (meta ++ encoded es) ≡ length meta + length (encoded es)
    fits = length-append meta (encoded es)

    len :
        le32
          (byte (length meta % 2 ^ 32))
          (byte (length meta % 2 ^ 32 / 2 ^ 8))
          (byte (length meta % 2 ^ 32 / 2 ^ 16))
          (byte (length meta % 2 ^ 32 / 2 ^ 24))
        ≡ length meta
    len = omega (arith, fits)

-- Behind any two bytes of version, the parser reads a list of entries of at most 2 ^ 32 - 1 bytes,
-- written by `add_extension` one after the other, as the entries say in order: extensions if each has
-- the form that its identifier asks for, and the error otherwise.
pub parse_client_info-write_entries :
    (major minor : ℕ) (es : Entries)
    → length (write_entries [] es) < 2 ^ 32
    → parse_client_info (major ∷ minor ∷ write_entries [] es) ≡ read_entries es no_extensions
unfolding parse_client_info
parse_client_info-write_entries major minor es h = ground (
  arith,
  write_entries-encoded [] es,
  parse_extensions-encoded (suc (length (major ∷ minor ∷ encoded es))) es no_extensions,
)
