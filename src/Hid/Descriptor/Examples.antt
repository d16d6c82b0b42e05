-- ===== src/Hid/Descriptor/Examples.antt =====
-- The descriptor of a security key, and what the theorems on descriptor.rs say of concrete ones.
use fidoh.Base.{ℕ, ◌≡◌, ◌≢◌, ◌↔◌, refl, arith, true, List, [], ◌∷◌, ok, err, some}
use fidoh.Hid.Errors.{short_report}
use fidoh.Hid.Descriptor.{
  size_of, from_le_bytes, split_usage, popped, global_item, usage_item, output_item, short_item,
  long_length, scan, find_fido_usage,
}
use fidoh.Hid.Descriptor.Items.{Item, short, long, IsWhole, items_bytes, find_fido_usage_refuses}
use fidoh.Hid.Descriptor.Meaning.{
  Tag, usage_page, push, pop, report_size, report_count, usage, output, prefix_of, nil, one_byte,
  two_bytes, four_bytes, Said, tagged, plain, skipped, items_of, find_fido_usage_means,
}

-- Usage Page 0xF1D0, Usage 1, a collection, Report Size 8, Report Count 64, Output, its end, and a
-- long item.
abbrev key_items : List Item
key_items =
    short 0x06 (0xd0 ∷ 0xf1 ∷ [])
    ∷ short 0x09 (0x01 ∷ [])
    ∷ short 0xa1 (0x01 ∷ [])
    ∷ short 0x75 (0x08 ∷ [])
    ∷ short 0x95 (0x40 ∷ [])
    ∷ short 0x91 (0x02 ∷ [])
    ∷ short 0xc0 []
    ∷ long 0x05 (0x07 ∷ [])
    ∷ []

key_read :
    find_fido_usage (items_bytes key_items)
    ≡ ok (record { page = true; usage = true; output_report_size = some 64 })
unfolding scan size_of from_le_bytes split_usage popped global_item usage_item output_item
    short_item long_length
key_read = refl

-- Usage Page 0xF1D0, Push, an extended Usage, Report Size 8, Report Count 64, a collection, Output,
-- Pop, and a long item.
abbrev said : List Said
said =
    tagged usage_page (two_bytes 0xd0 0xf1)
    ∷ tagged push nil
    ∷ tagged usage (four_bytes 0x01 0x00 0xd0 0xf1)
    ∷ tagged report_size (one_byte 0x08)
    ∷ tagged report_count (one_byte 0x40)
    ∷ plain 0xa0 (one_byte 0x01)
    ∷ tagged output (one_byte 0x02)
    ∷ tagged pop nil
    ∷ skipped 0x05 (0x07 ∷ [])
    ∷ []

collection_plain : (t : Tag) → 0xa0 ≢ prefix_of t
collection_plain usage_page = omega arith
collection_plain push = omega arith
collection_plain pop = omega arith
collection_plain report_size = omega arith
collection_plain report_count = omega arith
collection_plain usage = omega arith
collection_plain output = omega arith

find_fido_usage_means_example :
    find_fido_usage (items_bytes (items_of said))
    ≡ ok (record { page = true; usage = true; output_report_size = some 64 })
find_fido_usage_means_example =
    find_fido_usage_means said
      (tt, (tt, (tt, (tt, (tt, ((omega arith, refl, collection_plain), (tt, (tt, (tt, tt)))))))))

abbrev cut_bytes : List ℕ
cut_bytes = 0x06 ∷ 0xd0 ∷ []

find_fido_usage_refuses_example :
    (find_fido_usage cut_bytes ≡ err (short_report 2)) ↔ (¬ IsWhole cut_bytes)
find_fido_usage_refuses_example = find_fido_usage_refuses cut_bytes
