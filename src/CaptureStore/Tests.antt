-- ===== src/CaptureStore/Tests.antt =====
-- A small log of crates/gabriel-proxy/src/store.rs, and the instances of the theorems about it.
use gabrielbrowser.Base.{
  ◌==◌, true, Option, none, some, [], ◌∷◌, Str, codes, if◌then◌else◌, length, ◌≡◌, inr, refl, take,
  filter,
}
use gabrielbrowser.Base.Text.{split}
use gabrielbrowser.Capture.{Capture}
use gabrielbrowser.CaptureStore.{CaptureFilter, matches, list, append}
use gabrielbrowser.CaptureStore.Queries.{newest_first, list_lem}
use gabrielbrowser.CaptureStore.Append.{append_lem, append_torn}

abbrev capture : Str → Capture
capture id = record {
  id = id;
  at = 0;
  duration_ms = 0;
  session = none;
  page = none;
  request = record {
    method = codes "GET";
    url = codes "https://a.test/";
    http_version = [];
    headers = [];
    body = none;
  };
  response = none;
}

-- A line of one letter is the capture with that id.
abbrev encode : Capture → Str
encode c = c.id

abbrev decode : Str → Option Capture
decode line = if length line == 1 then some (capture line) else none

abbrev everything : CaptureFilter
everything = record {
  host = none;
  url = none;
  method = none;
  status_min = none;
  status_max = none;
  session = none;
}

abbrev log : Str
log = codes "a\nbroken\n\nb\n"

newest_test : newest_first decode log ≡ capture (codes "b") ∷ capture (codes "a") ∷ []
unfolding split
newest_test = refl

matches_test : matches everything (capture (codes "a")) ≡ true
unfolding matches
matches_test = refl

list_lem_example :
    list decode (some log) everything 1
    ≡ take 1 (filter (matches everything) (newest_first decode log))
list_lem_example = list_lem decode log everything 1

append_lem_example :
    list decode (append encode (some log) (capture (codes "c"))) everything 5
    ≡ take 5 (filter (matches everything) (capture (codes "c") ∷ newest_first decode log))
append_lem_example =
    append_lem encode decode (capture (codes "c")) refl log everything 5
      (inr (codes "a\nbroken\n\nb", refl)) refl refl

append_torn_example :
    list decode (append encode (some (codes "a\n{\"i")) (capture (codes "c"))) everything 5
    ≡ take 5 (filter (matches everything) (newest_first decode (codes "a\n")))
append_torn_example =
    append_torn encode decode (capture (codes "c")) refl (codes "a") (codes "{\"i") everything 5
      refl refl refl
