-- ===== src/Sse/Tests.antt =====
-- Runs of the parser of crates/gabriel-core/src/sse.rs, and the instances of its theorems.
use gabrielbrowser.Base.{
  none, some, List, [], ◌∷◌, Str, codes, str_eq, strip_suffix, strip_prefix, starts_with, All, ◌≡◌,
  refl,
}
use gabrielbrowser.Base.Text.{join, split_once, parse_u64, parse_unsigned}
use gabrielbrowser.Base.Utf8.{from_utf8_lossy}
use gabrielbrowser.Sse.{
  new, push, drain, line, dispatch_started, dispatch, field_value, apply_field, without_cr,
}
use gabrielbrowser.Sse.Chunks.{push_all, push_chunks, concat}
use gabrielbrowser.Sse.Fields.{push-encode, encode, encode_cut, wire, idle, IsLine}

abbrev two_chunks : List Str
two_chunks = codes "data: a\r\ndata" ∷ codes ": b\nretry: 15\n\n: ping\n\n" ∷ []

push_all_test :
    (push_all new two_chunks).1
    ≡ record { name = none; «data» = codes "a\nb"; id = none; retry_ms = some 15 } ∷ []
unfolding push_all push drain line dispatch_started dispatch field_value apply_field without_cr
    from_utf8_lossy split_once parse_u64 parse_unsigned str_eq strip_suffix strip_prefix starts_with
    join
push_all_test = refl

-- A block with a known field and no data is an event too.
retry_only_test :
    (push new (codes "retry: 15\n\n")).1
    ≡ record { name = none; «data» = []; id = none; retry_ms = some 15 } ∷ []
unfolding push drain line dispatch_started dispatch field_value apply_field without_cr
    from_utf8_lossy split_once parse_u64 parse_unsigned str_eq strip_suffix strip_prefix starts_with
    join
retry_only_test = refl

push_chunks_example : push_all new two_chunks ≡ push new (concat two_chunks)
push_chunks_example = push_chunks two_chunks

abbrev parts : List Str
parts = codes "one" ∷ codes " two" ∷ []

parts-IsLine : All IsLine (encode (codes "tick") parts (codes "7"))
unfolding without_cr from_utf8_lossy strip_suffix strip_prefix
parts-IsLine = ((refl, refl), ((refl, refl), ((refl, refl), ((refl, refl), ((refl, refl), tt)))))

push-encode_example : push (idle none) (wire (encode (codes "tick") parts (codes "7"))) ≡ (
  idle (some (codes "7")),
  record {
    name = some (codes "tick");
    «data» = codes "one\n two";
    id = some (codes "7");
    retry_ms = none;
  }
      ∷ [],
)
unfolding join
push-encode_example = push-encode none (codes "tick") parts (codes "7") refl parts-IsLine

cut-IsLine : All IsLine (encode_cut (codes "tick") parts)
unfolding without_cr from_utf8_lossy strip_suffix strip_prefix
cut-IsLine = ((refl, refl), ((refl, refl), ((refl, refl), tt)))
