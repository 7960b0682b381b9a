-- ===== src/Mem/Frames/Allocate.antt =====
-- Frames are allocated under the lock, the least free one first.
use luck_os.Common.{ℕ, ◌≡◌, refl, Option, some, List, ◌>>=◌}
use luck_os.Bitmap.{Bitmap, IsValid}
use luck_os.Bitmap.Update.{Allocates, bitmap_allocate_first_free-Allocates}
use luck_os.Sync.Yieldlock.{Yieldlock, locked_no, yieldlock_lock-free, yieldlock_unlock}
use luck_os.Mem.Frames.{allocate_phy_frame, frame_result}

-- With the lock free and a valid map, `allocate_phy_frame` returns the least free frame, which is then in use, or -1 when all
-- frames are in use, and the lock is free again.
allocate_phy_frame-Allocates :
    (seen : List ℕ) (phy_frames_map_lock : Yieldlock) (phy_frames_map : Bitmap)
    → phy_frames_map_lock.hold ≡ locked_no
    → IsValid phy_frames_map
    → (frame : Option ℕ) × (lock' : Yieldlock) × (map' : Bitmap) × (allocate_phy_frame seen
          phy_frames_map_lock phy_frames_map
        ≡ some (frame_result frame, lock', map'))
      × (lock'.hold ≡ locked_no)
      × Allocates phy_frames_map (frame, map')
unfolding allocate_phy_frame yieldlock_unlock
allocate_phy_frame-Allocates seen phy_frames_map_lock phy_frames_map free valid =
    let ((frame, map'), run, done) = bitmap_allocate_first_free-Allocates phy_frames_map valid in
    (
      frame,
      record { hold = locked_no },
      map',
      rw (yieldlock_lock-free seen phy_frames_map_lock free, ◌>>=◌, run) refl,
      refl,
      done,
    )
