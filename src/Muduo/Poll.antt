-- ===== src/Muduo/Poll.antt =====
-- muduo/server.hpp, classes Channel and Poll: which descriptors an event loop watches and for what, and
-- what it does with the events that have come. epoll is a parameter, the interface `Epoll`.
use linux_os.Base.{ℕ, ◌≡◌, Option, none, some, Bool, true, false, ◌||◌, if◌then◌else◌, update}

-- The bits EPOLLIN and EPOLLOUT of `_events`; no other is ever set.
pub record Events : Type 0 where
  pub readable : Bool
  pub writeable : Bool

pub data CtlOp : Type 0 where
  ctl_add : CtlOp
  ctl_mod : CtlOp
  ctl_del : CtlOp

-- The descriptors of the process in a state `K` of the kernel, and `epoll_ctl` on them; `none` is an
-- error, which leaves the state as it is.
pub record Epoll (K : Type 0) : Type 0 where
  pub is_open : K → ℕ → Bool
  pub is_watched : K → ℕ → Bool
  pub epoll_ctl : K → CtlOp → ℕ → Events → Option K
  pub close_fd : K → ℕ → K

-- What the manual says of them, for one descriptor.
pub record EpollLaws {K : Type 0} (os : Epoll K) : Type 0 where
  pub add_open :
      (k : K) (fd : ℕ) (ev : Events)
      → os.is_open k fd ≡ true
      → os.is_watched k fd ≡ false
      → (k' : K) × (os.epoll_ctl k ctl_add fd ev ≡ some k')
        × (os.is_open k' fd ≡ true)
        × (os.is_watched k' fd ≡ true)
  pub add_closed :
      (k : K) (fd : ℕ) (ev : Events) → os.is_open k fd ≡ false → os.epoll_ctl k ctl_add fd ev ≡ none
  pub mod_watched :
      (k : K) (fd : ℕ) (ev : Events)
      → os.is_open k fd ≡ true
      → os.is_watched k fd ≡ true
      → (k' : K) × (os.epoll_ctl k ctl_mod fd ev ≡ some k')
        × (os.is_open k' fd ≡ true)
        × (os.is_watched k' fd ≡ true)
  pub del_watched :
      (k : K) (fd : ℕ) (ev : Events)
      → os.is_open k fd ≡ true
      → os.is_watched k fd ≡ true
      → (k' : K) × (os.epoll_ctl k ctl_del fd ev ≡ some k')
        × (os.is_open k' fd ≡ true)
        × (os.is_watched k' fd ≡ false)
  pub close_open :
      (k : K) (fd : ℕ)
      → (os.is_open (os.close_fd k fd) fd ≡ false) × (os.is_watched (os.close_fd k fd) fd ≡ false)

-- Of the map from descriptors to channels, which descriptors it has.
pub record Poll (K : Type 0) : Type 0 where
  pub kernel : K
  pub care_fd : ℕ → Bool

pub record Channel : Type 0 where
  pub fd : ℕ
  pub events : Events

abbrev pub no_events : Events
no_events = record { readable = false; writeable = false }

unfoldable pub new_channel : ℕ → Channel
new_channel fd = record { fd = fd; events = no_events }

-- The result of an operation that may end the process by `exit`: `none` then.
abbrev pub Exits : Type 0 → Type 0
Exits A = Option A

module _ {K : Type 0} (os : Epoll K) where
  -- UpdateMonitor exits on an error.
  unfoldable pub update_event : Poll K → Channel → Exits (Poll K)
  update_event p ch =
      if p.care_fd ch.fd
      then elim (os.epoll_ctl p.kernel ctl_mod ch.fd ch.events) [
        | none ↦ none
        | some k ↦ some (record p { kernel = k })
      ]
      else elim (os.epoll_ctl p.kernel ctl_add ch.fd ch.events) [
        | none ↦ none
        | some k ↦ some (record { kernel = k; care_fd = update p.care_fd ch.fd true })
      ]

  -- The result of `epoll_ctl` is not looked at.
  unfoldable pub remove_event : Poll K → Channel → Poll K
  remove_event p ch =
      if p.care_fd ch.fd
      then (record {
        kernel = elim (os.epoll_ctl p.kernel ctl_del ch.fd no_events) [
          | none ↦ p.kernel
          | some k ↦ k
        ];
        care_fd = update p.care_fd ch.fd false;
      })
      else p

unfoldable pub set_readable : Channel → Bool → Channel
set_readable ch on = record ch { events = record ch.events { readable = on } }

unfoldable pub set_writeable : Channel → Bool → Channel
set_writeable ch on = record ch { events = record ch.events { writeable = on } }

module _ {K : Type 0} (os : Epoll K) where
  -- The channel's events change before the poll is told.
  unfoldable pub with_update : Poll K → Channel → Exits (Channel × Poll K)
  unfolding update_event
  with_update p ch = elim (update_event os p ch) [ none ↦ none | some p' ↦ some (ch, p') ]

  unfoldable pub enable_read : Channel → Poll K → Exits (Channel × Poll K)
  unfolding with_update set_readable
  enable_read ch p = with_update p (set_readable ch true)

  unfoldable pub disable_read : Channel → Poll K → Exits (Channel × Poll K)
  unfolding with_update set_readable
  disable_read ch p = with_update p (set_readable ch false)

  unfoldable pub enable_write : Channel → Poll K → Exits (Channel × Poll K)
  unfolding with_update set_writeable
  enable_write ch p = with_update p (set_writeable ch true)

  unfoldable pub disable_write : Channel → Poll K → Exits (Channel × Poll K)
  unfolding with_update set_writeable
  disable_write ch p = with_update p (set_writeable ch false)

  unfoldable pub remove : Channel → Poll K → Channel × Poll K
  unfolding remove_event
  remove ch p = let ch' : Channel = record ch { events = no_events } in (ch', remove_event os p ch')

-- The bits of `_revents` that HandleEvents looks at.
pub record Revents : Type 0 where
  pub hup : Bool
  pub err : Bool
  pub in_ready : Bool
  pub pri : Bool
  pub out_ready : Bool

-- The callback that runs after that for any event.
pub data Handler : Type 0 where
  close_cb : Handler
  error_cb : Handler
  read_cb : Handler
  write_cb : Handler
  no_cb : Handler

unfoldable pub handler : Revents → Handler
handler r =
    if r.hup
    then close_cb
    else if r.err
    then error_cb
    else if r.in_ready || r.pri
    then read_cb
    else if r.out_ready
    then write_cb
    else no_cb
