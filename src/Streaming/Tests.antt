-- ===== src/Streaming/Tests.antt =====
-- sw/iiostream.c on a library in which every call succeeds.
use adi_bbp.Common.{ℕ, ◌+◌, refl, true, false, none, some, [], ◌∷◌}
use mathlib.Core.List.Perm
use adi_bbp.Streaming.Library.{Iio}
use adi_bbp.Streaming.State.{is_negative, context, acquired, World}
use adi_bbp.Streaming.{main, started}
use adi_bbp.Streaming.Laws.{Post}
use adi_bbp.Streaming.Laws.Success.{Works}
use adi_bbp.Streaming.Laws.Success.Whole.{Completes, main_success}
use adi_bbp.Streaming.Laws.Main.{held, Never, main_lem}

-- The state counts the handles. Handles are numbers from 1 on.
abbrev library : Iio
library = record {
  State = ℕ;
  create_default_context = λ s. (some (s + 1), s + 1);
  context_get_devices_count = λ ctx s. (3, s);
  context_find_device = λ ctx d s. (some (s + 1), s + 1);
  device_find_channel = λ dev name output s. (some (s + 1), s + 1);
  channel_attr_write = λ chn what text s. (0, s);
  channel_attr_write_longlong = λ chn what val s. (0, s);
  channel_enable = λ chn s. s;
  channel_disable = λ chn s. s;
  device_create_buffer = λ dev samples cyclic s. (some (s + 1), s + 1);
  buffer_destroy = λ buf s. s;
  context_destroy = λ ctx s. s;
  buffer_step = λ buf s. (4, s);
  buffer_refill = λ buf s. (80, s);
  buffer_first = λ buf chn s. (4096, s);
  device_get_sample_size = λ dev s. (4, s);
  fopen = λ capnum s. (true, s);
  fwrite_fclose = λ capnum cap nbytes s. s;
  interrupted = λ s. false;
}

main_lem_example : Post Never (main library 2 (started library 0))
main_lem_example = main_lem library 0 0

-- The program with its context.
abbrev opened : World library
opened = record {
  outside = 1;
  statics = held (some 1) none none none;
  stop = false;
  events = acquired (context 1) ∷ [];
}

works : Works library
unfolding is_negative
works = record {
  context_found = λ o. tt;
  some_devices = λ ctx o. refl;
  device_found = λ ctx d o. tt;
  channel_found = λ dev name output o. tt;
  text_written = λ chn what text o. refl;
  number_written = λ chn what val o. refl;
  buffer_found = λ dev samples cyclic o. tt;
  refilled = λ buf o. refl;
  sized = λ dev o. refl;
  file_opened = λ capnum o. refl;
  quiet = λ o. refl;
}

main_success_example : Completes (main library 2 (started library 0))
main_success_example = main_success works 0 0
