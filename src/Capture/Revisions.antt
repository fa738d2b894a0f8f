-- ===== src/Capture/Revisions.antt =====
-- A revision of the topology stands for its displays (device/capture/src/x11.rs).
use donkeywork_desktop.Base.{
  ℕ, ◌≡◌, ◌≤◌, ◌<◌, refl, ap, sym, ◌∙◌, Bool, true, false, some, List, [], ◌∷◌, ok, ok_or, ◌==◌,
  if◌then◌else◌, find, any, length, map, arith,
}
use donkeywork_desktop.Base.Actions.{
  pure, lift, gets, ensure, ◌>>◌, Keeps, IsPreorder, Ensures, >>=-Ensures, >>=-eq_ok,
}
use donkeywork_desktop.Base.Int.{ℤ, pos, negsuc}
use donkeywork_desktop.Capture.Types.{Resolution, Display, Topology, not_found, stale_topology}
use donkeywork_desktop.Capture.Server.{Server, X11Backend, Method, Call, ask}
use donkeywork_desktop.Capture.Topology.{
  is_int, are_resolutions, is_bool, is_display, are_displays, restrict_resize, record_displays,
  refresh_topology, checked_display, drain_events, examine_outputs, sort_displays,
}
use donkeywork_desktop.Capture.Reads.{ReadsKeep, refresh_topology-Keeps}

is_int-eq : (a b : ℤ) → is_int a b ≡ true → a ≡ b
unfolding is_int
is_int-eq (pos a) (pos b) h = ground arith
is_int-eq (negsuc a) (negsuc b) h = ground arith
is_int-eq (pos a) (negsuc b) h = cc
is_int-eq (negsuc a) (pos b) h = cc

is_bool-eq : (a b : Bool) → is_bool a b ≡ true → a ≡ b
unfolding is_bool
is_bool-eq true b h = sym h
is_bool-eq false b h = ground arith

are_resolutions-eq : (xs ys : List Resolution) → are_resolutions xs ys ≡ true → xs ≡ ys
unfolding are_resolutions
are_resolutions-eq [] [] h = refl
are_resolutions-eq (x ∷ xs) (y ∷ ys) h = ground (arith, are_resolutions-eq xs ys)
are_resolutions-eq (x ∷ xs) [] h = cc
are_resolutions-eq [] (y ∷ ys) h = cc

is_display-eq : (a b : Display) → is_display a b ≡ true → a ≡ b
unfolding is_display
is_display-eq a b h = ground (
  arith,
  is_int-eq a.x b.x,
  is_int-eq a.y b.y,
  is_bool-eq a.primary b.primary,
  is_bool-eq a.can_resize b.can_resize,
  are_resolutions-eq a.modes b.modes,
)

pub are_displays-eq : (xs ys : List Display) → are_displays xs ys ≡ true → xs ≡ ys
unfolding are_displays
are_displays-eq [] [] h = refl
are_displays-eq (x ∷ xs) (y ∷ ys) h = ground (arith, is_display-eq x y, are_displays-eq xs ys)
are_displays-eq (x ∷ xs) [] h = cc
are_displays-eq [] (y ∷ ys) h = cc

-- The revision never falls, and while it stays the displays stay.
pub record IsRevised {X : Type 0} (s t : X11Backend X) : Type 0 where
  pub grows : s.topology.revision ≤ t.topology.revision
  pub same : s.topology.revision ≡ t.topology.revision → s.topology.displays ≡ t.topology.displays

instance abbrev pub IsRevised-IsPreorder : {X : Type 0} → IsPreorder (IsRevised {X = X})
IsRevised-IsPreorder = record {
  reflexive = λ s. record { grows = omega arith; same = λ e. refl };
  transitive = λ s t u p q. record {
    grows = omega arith;
    same = λ e. p.same (omega (arith, p.grows, q.grows)) ∙ q.same (omega (arith, p.grows, q.grows));
  };
}

module _ {X : Type 0} ⦃K : Server X⦄ where
  still : {A : Type 0} (f : Call X A) → Keeps (IsRevised {X = X}) (ask f)
  still f = record { apply = λ s. record { grows = omega arith; same = λ e. refl } }

  pub reads : ReadsKeep (IsRevised {X = X})
  reads = record {
    clock = record { apply = λ s. record { grows = omega arith; same = λ e. refl } };
    arming = λ n. record { apply = λ s. record { grows = omega arith; same = λ e. refl } };
    polling = still K.poll_event;
    resources = still K.screen_resources;
    primary = still K.output_primary;
    output = λ id t. still (K.output_info id t);
    crtc = λ id t. still (K.crtc_info id t);
    transform = λ id. still (K.crtc_transform id);
    panning = λ id. still (K.panning id);
    names = still K.key_names;
    state = still K.key_state;
    keymap = still K.key_map;
    modifiers = still K.modifier_mapping;
  }

  pub recording :
      (changed : Bool) (timestamp : ℕ) (displays : List Display)
      → Keeps (IsRevised {X = X}) (record_displays changed timestamp displays)
  unfolding record_displays
  recording changed timestamp displays = record {
    apply = λ s. ground (arith, are_displays-eq displays s.topology.displays);
  }

  pub refresh-IsRevised : Keeps (IsRevised {X = X}) refresh_topology
  refresh-IsRevised = refresh_topology-Keeps reads recording

abbrev pub some_resizable : List Display → Bool
some_resizable ds = any (λ d. d.can_resize) ds

restricted :
    (ds : List Display)
    → some_resizable (map {A = Display} (λ d. record d { can_resize = false }) ds) ≡ false
restricted [] = refl
restricted (d ∷ ds) = restricted ds

restrict_resize_lem :
    (ds : List Display)
    → some_resizable (restrict_resize ds) ≡ true
    → length (restrict_resize ds) ≡ 1
unfolding restrict_resize
restrict_resize_lem ds h = ground (arith, restricted ds)

-- What a refreshed topology is.
pub record IsCurrent {X : Type 0} (t : Topology) (s : X11Backend X) : Type 0 where
  pub recorded : t ≡ s.topology
  pub positive : 0 < t.revision
  pub alone : some_resizable t.displays ≡ true → length t.displays ≡ 1

module _ {X : Type 0} ⦃K : Server X⦄ where
  record_displays-IsCurrent :
      (changed : Bool) (timestamp : ℕ) (ds : List Display)
      → Ensures (IsCurrent {X = X}) (record_displays changed timestamp (restrict_resize ds))
  unfolding record_displays
  record_displays-IsCurrent changed timestamp ds = record {
    at = λ s t h. ground (arith, restrict_resize_lem ds);
  }

  refresh-IsCurrent : Ensures (IsCurrent {X = X}) refresh_topology
  unfolding refresh_topology
  refresh-IsCurrent = >>=-Ensures (drain_events 1024 false) _ λ changed.
      >>=-Ensures (ask K.screen_resources) _ λ resources.
        >>=-Ensures (gets (λ s. s.randr13)) _ λ randr13.
          >>=-Ensures (if randr13 then ask K.output_primary else pure 0) _ λ primary.
            >>=-Ensures (examine_outputs resources primary resources.outputs) _ λ found.
              record_displays-IsCurrent changed resources.config_timestamp (sort_displays found)

  -- A refresh that succeeds returns the topology that it records; that has a positive revision, not
  -- below the one before, the same displays where the revision is the same, and a display that can
  -- be resized only where it is the only one.
  pub refresh_topology_lem :
      (s : X11Backend X) (t : Topology)
      → (refresh_topology s).1 ≡ ok t
      → (t ≡ (refresh_topology s).0.topology)
        × (0 < t.revision)
        × (s.topology.revision ≤ t.revision)
        × (s.topology.revision ≡ t.revision → s.topology.displays ≡ t.displays)
        × (some_resizable t.displays ≡ true → length t.displays ≡ 1)
  refresh_topology_lem s t h =
      let now = refresh-IsCurrent.at s t h in
      let revised = refresh-IsRevised.apply s in
      (
        now.recorded,
        now.positive,
        rw (now.recorded) (revised.grows),
        rw (now.recorded) (revised.same),
        now.alone,
      )

  -- What `checked_display` does with the topology.
  abbrev chosen : ℕ → ℕ → Topology → Method X Display
  chosen revision id t =
      ensure (revision == t.revision) stale_topology
      >> lift (ok_or (find (λ d. d.id == id) t.displays) not_found)

  chosen_lem :
      (revision id : ℕ) (t : Topology) (s : X11Backend X) (d : Display)
      → (chosen revision id t s).1 ≡ ok d
      → ((chosen revision id t s).0 ≡ s)
        × (t.revision ≡ revision)
        × (find (λ x. x.id == id) t.displays ≡ some d)
  chosen_lem revision id t s d h = ground arith

  -- A display that `checked_display` lets through is the one of that id at the revision that was
  -- asked for: in the refreshed topology, and in the one before if that had this revision.
  pub checked_display_lem :
      (revision id : ℕ) (s : X11Backend X) (d : Display)
      → (checked_display revision id s).1 ≡ ok d
      → ((checked_display revision id s).0.topology.revision ≡ revision)
        × (find (λ x. x.id == id) (checked_display revision id s).0.topology.displays ≡ some d)
        × (s.topology.revision ≡ revision → find (λ x. x.id == id) s.topology.displays ≡ some d)
  unfolding checked_display
  checked_display_lem revision id s d h =
      let (t, refreshed, same) = >>=-eq_ok refresh_topology (chosen revision id) s h in
      let u = (refresh_topology s).0 in
      let now = refresh_topology_lem s t refreshed in
      let picked = chosen_lem revision id t u d (ap (λ r. r.1) (sym same) ∙ h) in
      let end : (checked_display revision id s).0.topology ≡ t =
        ap (λ r. r.0.topology) same ∙ ap (λ x. x.topology) picked.0 ∙ sym now.0 in
      let pick = λ (ds : List Display). find (λ x. x.id == id) ds in
      (
        ap (λ x. x.revision) end ∙ picked.1,
        ap (λ x. pick x.displays) end ∙ picked.2,
        λ q. ap pick (now.3 (q ∙ sym picked.1)) ∙ picked.2,
      )
