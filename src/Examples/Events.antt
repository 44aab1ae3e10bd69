-- ===== src/Examples/Events.antt =====
-- Runs of the parsers of devd's messages, of the monitor's thread and of its channel.
use libudev_devd.Common.{
  ◌+◌, ◌*◌, ◌≡◌, ◌≢◌, ◌⊎◌, inl, refl, ◌+◌, Bool, true, false, none, some, List, [], ◌∷◌, ◌++◌, Text,
  codes, if◌then◌else◌, arith,
}
use libudev_devd.Devd.{
  remove, parse_devd_message, udev_dev_monitor, udev_sys_monitor, udev_net_monitor, ◌or_else◌,
}
use libudev_devd.Devd.Dispatch.{parse_devd_message-no_pci}
use libudev_devd.Devd.Cdev.{cdev_notice, parse_devd_message-cdev_notice}
use libudev_devd.Monitor.Queue.{
  Channel, Sender, Receiver, Reach, new_channel, insert, write, read, start, later,
}
use libudev_devd.Monitor.Delivery.{receive-finds_entry}
use libudev_devd.Monitor.Drain.{Drained, owed, client-Drained}
use libudev_devd.Monitor.Thread.{
  Round, ready, ThreadState, udev_monitor_thread, new_thread, thread_round, continue, break,
}
use libudev_devd.Monitor.Thread.Descriptors.{
  open_sockets, udev_monitor_thread-descriptors, descriptor_zero_ignored,
}

abbrev attach_message : Text
attach_message = codes "+uhub0 at bus=0"

parse_devd_message-no_pci_example : parse_devd_message true 16 attach_message [] 80 ≡ (
    udev_dev_monitor attach_message [] 80
    or_else (udev_sys_monitor true attach_message [] 80).0
    or_else udev_net_monitor 16 (udev_sys_monitor true attach_message [] 80).1 [] 80)
parse_devd_message-no_pci_example = parse_devd_message-no_pci true 16 attach_message [] 80

parse_devd_message-cdev_notice_example :
    parse_devd_message true 16 (cdev_notice remove (codes "ums0")) [] 80
    ≡ some (remove, codes "/dev/" ++ codes "ums0")
parse_devd_message-cdev_notice_example =
    parse_devd_message-cdev_notice true 16 remove (codes "ums0") [] 80 refl (omega arith)
      (omega arith)

abbrev queued_channel : Channel
queued_channel = record new_channel { queue = 7 ∷ []; sender = Sender.queued 7 }

abbrev written_channel : Channel
written_channel = record new_channel { queue = 7 ∷ []; pipe = 1; sent = 7 ∷ [] }

abbrev woken_channel : Channel
woken_channel = record new_channel { queue = 7 ∷ []; receiver = Receiver.woken; sent = 7 ∷ [] }

queued-Reach : Reach queued_channel
queued-Reach = later start (insert 7 refl refl)

woken-Reach : Reach woken_channel
woken-Reach = later (later queued-Reach (write 7 refl)) (read 0 refl refl)

receive-finds_entry_example : woken_channel.queue ≢ []
receive-finds_entry_example = receive-finds_entry woken-Reach (inl refl)

client-Drained_example :
    Drained (3 * woken_channel.pipe + owed woken_channel.receiver) woken_channel
client-Drained_example = client-Drained woken-Reach

abbrev all_pass : Text → Bool
all_pass path = true

-- A connection, a message, and the end of the client.
abbrev three_rounds : List Round
three_rounds =
    record { socket = some 5; connected = true; poll = ready 0 false false false; recv = [] }
    ∷ record {
      socket = none;
      connected = false;
      poll = ready 1 false true false;
      recv = codes "+uhub0 at\n";
    }
    ∷ record { socket = none; connected = false; poll = ready 1 true false false; recv = [] }
    ∷ []

udev_monitor_thread-descriptors_example :
    let (events, s, ended) = udev_monitor_thread true 16 all_pass three_rounds new_thread in
    s.opened ≡ s.closed + (if ended then 0 else open_sockets s)
udev_monitor_thread-descriptors_example =
    udev_monitor_thread-descriptors true 16 all_pass three_rounds

abbrev message_round : Round
message_round = record {
  socket = none;
  connected = false;
  poll = ready 1 false true false;
  recv = codes "+uhub0 at\n";
}

abbrev at_zero : ThreadState
at_zero = record { devd_fd = some 0; opened = 1; closed = 0 }

descriptor_zero_ignored_example :
    (thread_round true 16 all_pass message_round at_zero ≡ continue at_zero none)
    ⊎ (thread_round true 16 all_pass message_round at_zero ≡ break at_zero)
descriptor_zero_ignored_example =
    descriptor_zero_ignored true 16 all_pass message_round at_zero refl
