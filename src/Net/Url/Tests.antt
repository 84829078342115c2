-- ===== src/Net/Url/Tests.antt =====
-- URLs at concrete texts.
use geodesk_gol.Prelude.{◌≡◌, refl, none, some}
use geodesk_gol.Prelude.Int.{pos}
use geodesk_gol.Net.Url.Parts.{IsSplit, parse-IsSplit, origin_of_default_scheme}
use geodesk_gol.Net.Url.{
  Bytes, codes, find_first, find_scheme_end, split_scheme, split_port, split_path, split_query,
  split_fragment, parse, from_chars, port, origin,
}

abbrev sample : Bytes
sample = codes "https://a.org:81/x/y?q=1#f"

sample_parts :
    ((parse sample).scheme.text ≡ codes "https")
    × ((parse sample).host.text ≡ codes "a.org")
    × (port (parse sample) ≡ pos 81)
    × ((parse sample).path.text ≡ codes "/x/y")
    × ((parse sample).query.text ≡ codes "q=1")
    × ((parse sample).fragment.text ≡ codes "f")
    × (origin sample (parse sample) ≡ some (codes "https://a.org:81"))
unfolding parse find_first find_scheme_end split_scheme split_port split_path split_query
    split_fragment from_chars port origin
sample_parts = (refl, refl, refl, refl, refl, refl, refl)

parse-IsSplit_example : IsSplit sample (parse sample)
parse-IsSplit_example = parse-IsSplit sample

origin_of_default_scheme_example : origin (codes "a.org/x") (parse (codes "a.org/x")) ≡ none
unfolding parse find_first find_scheme_end split_scheme split_port
origin_of_default_scheme_example = origin_of_default_scheme (codes "a.org/x") refl (λ e. cc)
