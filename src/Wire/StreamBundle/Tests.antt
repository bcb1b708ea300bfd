-- ===== src/Wire/StreamBundle/Tests.antt =====
-- wire/stream_bundle.hpp: runs at concrete inputs.
use slop_sync.Base.{
  ℕ, ◌≤◌, ◌<◌, ◌≡◌, refl, true, some, List, [], ◌∷◌, arith, length, take, replicate, write_at,
}
use slop_sync.Result.{ok}
use slop_sync.Wire.Bytes.{at_offset, put_u8, put_u16, put_u32, get_u8, get_u16, get_u32}
use slop_sync.Wire.StreamBundle.{
  BundleWriter, BundleView, new_bundle, make_room, add_sample, finalize, walk_from, parse,
  sample_time_us, sample,
}
use slop_sync.Wire.StreamBundle.RoundTrip.{add_all, parse-add_all}
use slop_sync.Wire.StreamBundle.Accepts.{offset_of, parse-ascends}

-- Room for three samples of two bytes, with other bytes in it before.
abbrev old_room : List ℕ
old_room = replicate 20 255

abbrev written : BundleWriter
written = record {
  out =
      1
      ∷ (0
          ∷ (0
              ∷ (0
                  ∷ (3
                      ∷ (0
                          ∷ (0
                              ∷ (0
                                  ∷ (100
                                      ∷ (0
                                          ∷ (44
                                              ∷ (1
                                                  ∷ (7
                                                      ∷ (8
                                                          ∷ (9
                                                            ∷ (10
                                                            ∷ (11
                                                            ∷ (12
                                                            ∷ (255 ∷ (255 ∷ [])))))))))))))))))));
  t_base = 1;
  sample_size = 2;
  valid = true;
  n = 3;
  t_offs = 0 ∷ (100 ∷ (300 ∷ replicate 29 0));
}

abbrev viewed : BundleView
viewed = record { input = take 18 written.out; t_base = 1; n = 3; sample_size = 2 }

adds_three :
    add_all
      (new_bundle old_room 1 2)
      ((0, 7 ∷ (8 ∷ [])) ∷ ((100, 9 ∷ (10 ∷ [])) ∷ ((300, 11 ∷ (12 ∷ [])) ∷ [])))
    ≡ some written
unfolding add_all new_bundle add_sample make_room at_offset put_u8 put_u16 put_u32 write_at
adds_three = refl

views_three : parse (take 18 written.out) 2 ≡ ok viewed
unfolding parse walk_from get_u8 get_u16 get_u32
views_three = refl

parse-add_all_example :
    (v : BundleView) × (parse (take (finalize written) written.out) 2 ≡ ok v)
    × (v.t_base ≡ 1)
    × (v.n ≡ 3)
    × (sample_time_us v 1 ≡ 101)
    × (sample v 1 ≡ 9 ∷ (10 ∷ []))
parse-add_all_example =
    parse-add_all old_room 1 2 ((0, 7 ∷ (8 ∷ [])) ∷ []) 100 (9 ∷ (10 ∷ []))
      ((300, 11 ∷ (12 ∷ [])) ∷ []) written (omega arith) adds_three

parse-ascends_example :
    (3 ≤ 32)
    × (offset_of (take 18 written.out) 0 ≡ 0)
    × (offset_of (take 18 written.out) 1 < offset_of (take 18 written.out) 2)
    × (offset_of (take 18 written.out) 2 ≤ 20000)
    × (length (sample viewed 1) ≡ 2)
    × (length (sample viewed 2) ≡ 2)
parse-ascends_example =
    parse-ascends (take 18 written.out) 2 viewed 1 2 views_three (omega arith) (omega arith)
