-- ===== src/Tests/Headers.antt =====
-- A header with two directives, and a request for a block's state.
use tig_mining_pool_public.Common.{◌≡◌, true, some, refl}
use tig_mining_pool_public.Common.Bytes.{Bytes, codes, cmp, contains}
use tig_mining_pool_public.Common.Text.{
  to_ascii_lowercase, split, trim, trim_start, trim_end, is_whitespace, strip_prefix, split_once,
  parse_uint, digits_from,
}
use tig_mining_pool_public.Client.Cache.{lasting}
use tig_mining_pool_public.Client.Header.{
  forbidden, age_of, directives, caching_from_header, any_names_block, request_is_cacheable,
}

abbrev header : Bytes
header = codes "Public, max-age= 30"

abbrev request : Bytes
request = codes "/get-opow?block_id=b1"

header_lasts : caching_from_header (some header) ≡ lasting 30
unfolding caching_from_header forbidden age_of directives to_ascii_lowercase split trim trim_start
    trim_end is_whitespace strip_prefix parse_uint digits_from cmp
header_lasts = refl

request_in_scope : request_is_cacheable request ≡ true
unfolding request_is_cacheable split_once trim_start contains any_names_block split strip_prefix cmp
request_in_scope = refl
