-- ===== src/Net/Inotify/Tests.antt =====
-- src/80s/lua_net.c: inotify events on small inputs.
use s.Common.{◌≡◌, refl, true, false, none, some, [], ◌∷◌, arith}
use s.Net.Inotify.{l_net_inotify_read, in_modify, in_isdir}
use s.Net.Inotify.Read.{Event, IsEvent, encode_all, inotify_events_read}

-- A file in the directory, and an event of the directory itself.
abbrev changed : Event
changed = record { wd = 1; mask = in_modify; cookie = 0; name = b'a' ∷ b'b' ∷ []; pad = 2 }

abbrev itself : Event
itself = record { wd = 1; mask = in_isdir; cookie = 0; name = []; pad = 0 }

changed-IsEvent : IsEvent changed
changed-IsEvent = record {
  wd_fits = omega arith;
  mask_fits = omega arith;
  len_fits = omega arith;
  no_nul = (refl, (refl, tt));
  ended = refl;
}

itself-IsEvent : IsEvent itself
itself-IsEvent = record {
  wd_fits = omega arith;
  mask_fits = omega arith;
  len_fits = omega arith;
  no_nul = tt;
  ended = refl;
}

inotify_events_read_example :
    l_net_inotify_read (encode_all (itself ∷ changed ∷ []))
    ≡ some (
        record {
          name = b'a' ∷ b'b' ∷ [];
          wd = 1;
          dir = false;
          modify = true;
          delete = false;
          create = false;
        }
        ∷ [])
inotify_events_read_example =
    inotify_events_read (itself ∷ changed ∷ []) (itself-IsEvent, (changed-IsEvent, tt))

-- Fewer bytes than an event has.
short_read : l_net_inotify_read (1 ∷ 0 ∷ 0 ∷ 0 ∷ []) ≡ none
unfolding l_net_inotify_read
short_read = refl
