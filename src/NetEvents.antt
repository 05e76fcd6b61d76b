-- ===== src/NetEvents.antt =====
-- recipes-kernel/ethernet/files/2_net_event_monitor.c, which prints the events of the network
-- devices.
use yocto_meta_hsiao.Base.{
  ◌≡◌, ◌∙◌, refl, sym, ap, is_nonzero, ◌∷◌, [], if◌then◌else◌, none, some, pos, ℕ, ℤ, Bool, List,
  Option,
}
use yocto_meta_hsiao.Text.{codes, str_eq}

-- The events that the module names, and any other.
pub data Event : Type 0 where
  up down change register unregister changename changeaddr going_down changeupper : Event
  other : ℕ → Event

-- `netdev_event_name`
unfoldable pub netdev_event_name : Event → List ℕ
netdev_event_name up = codes "NETDEV_UP"
netdev_event_name down = codes "NETDEV_DOWN"
netdev_event_name change = codes "NETDEV_CHANGE"
netdev_event_name register = codes "NETDEV_REGISTER"
netdev_event_name unregister = codes "NETDEV_UNREGISTER"
netdev_event_name changename = codes "NETDEV_CHANGENAME"
netdev_event_name changeaddr = codes "NETDEV_CHANGEADDR"
netdev_event_name going_down = codes "NETDEV_GOING_DOWN"
netdev_event_name changeupper = codes "NETDEV_CHANGEUPPER"
netdev_event_name (other n) = codes "NETDEV_UNKNOWN"

-- The fields of a device that are printed.
pub record NetDevice : Type 0 where
  pub name : List ℕ
  pub ifindex : ℕ
  pub running : Bool
  pub carrier : Bool
  pub operstate : ℕ
  pub mtu : ℕ
  pub dev_addr : List ℕ

-- `print_netdev_state`: the lines, each the name of the event and the device.
unfoldable pub print_netdev_state : Option NetDevice → Event → List (List ℕ × NetDevice)
print_netdev_state none event = []
print_netdev_state (some ndev) event = (netdev_event_name event, ndev) ∷ []

abbrev pub notify_done : ℕ
notify_done = 0

-- `net_event_notifier_cb`: its result and the lines.
unfoldable pub net_event_notifier_cb : Option NetDevice → Event → ℕ × List (List ℕ × NetDevice)
net_event_notifier_cb none event = (notify_done, [])
net_event_notifier_cb (some ndev) event = (notify_done, print_netdev_state (some ndev) event)

-- `net_event_monitor_init`, from what `register_netdevice_notifier` returns.
abbrev pub net_event_monitor_init : ℤ → ℤ
net_event_monitor_init ret = if is_nonzero ret then ret else pos 0

-- A number that the name determines, the events without a name of their own being one.
abbrev pub event_kind : Event → ℕ
event_kind up = 0
event_kind down = 1
event_kind change = 2
event_kind register = 3
event_kind unregister = 4
event_kind changename = 5
event_kind changeaddr = 6
event_kind going_down = 7
event_kind changeupper = 8
event_kind (other n) = 9

-- That number from the name.
abbrev pub kind_of : List ℕ → ℕ
kind_of name =
    if str_eq name (codes "NETDEV_UP")
    then 0
    else if str_eq name (codes "NETDEV_DOWN")
    then 1
    else if str_eq name (codes "NETDEV_CHANGE")
    then 2
    else if str_eq name (codes "NETDEV_REGISTER")
    then 3
    else if str_eq name (codes "NETDEV_UNREGISTER")
    then 4
    else if str_eq name (codes "NETDEV_CHANGENAME")
    then 5
    else if str_eq name (codes "NETDEV_CHANGEADDR")
    then 6
    else if str_eq name (codes "NETDEV_GOING_DOWN")
    then 7
    else if str_eq name (codes "NETDEV_CHANGEUPPER")
    then 8
    else 9

kind_of_name : (e : Event) → kind_of (netdev_event_name e) ≡ event_kind e
unfolding netdev_event_name str_eq
kind_of_name up = refl
kind_of_name down = refl
kind_of_name change = refl
kind_of_name register = refl
kind_of_name unregister = refl
kind_of_name changename = refl
kind_of_name changeaddr = refl
kind_of_name going_down = refl
kind_of_name changeupper = refl
kind_of_name (other n) = refl

-- Every event of a device prints one line, with that device, from whose name the kind of the event
-- can be told: lines with the same name come from the same kind. An event without a device prints
-- none.
event-line :
    (ndev : NetDevice) (e e' : Event)
    → ((net_event_notifier_cb (some ndev) e).1 ≡ (netdev_event_name e, ndev) ∷ [])
      × ((net_event_notifier_cb none e).1 ≡ [])
      × (netdev_event_name e ≡ netdev_event_name e' → event_kind e ≡ event_kind e')
unfolding net_event_notifier_cb print_netdev_state
event-line ndev e e' =
    (refl, refl, λ same. sym (kind_of_name e) ∙ (ap kind_of same ∙ kind_of_name e'))
