-- ===== src/Device/Constants.antt =====
-- The words of plugins/Constants.h that name commands, and the states and transitions of
-- fair::mq that plugins/DaqServicePlugin.cxx names.
use nestdaq.Text.{Text, codes}

-- fair::mq::Plugin::DeviceState
pub data DeviceState : Type 0 where
  undefined error idle initializing_device initialized binding bound connecting device_ready
        initializing_task ready running resetting_task resetting_device exiting :
      DeviceState

pub DeviceState-discrete : Discrete DeviceState
DeviceState-discrete = hlevel

-- fair::mq::Plugin::DeviceStateTransition
pub data DeviceStateTransition : Type 0 where
  init_device complete_init bind connect init_task run stop reset_task reset_device end :
      DeviceStateTransition

-- namespace fairmq::command and namespace daq::command
pub data Command : Type 0 where
  bind complete_init connect end init_device init_task reset_device reset_task run stop exit quit
        reset start :
      Command

-- What each command is written as on the channel.
abbrev pub word : Command → Text
word bind = codes "BIND"
word complete_init = codes "COMPLETE INIT"
word connect = codes "CONNECT"
word end = codes "END"
word init_device = codes "INIT DEVICE"
word init_task = codes "INIT TASK"
word reset_device = codes "RESET DEVICE"
word reset_task = codes "RESET TASK"
word run = codes "RUN"
word stop = codes "STOP"
word exit = codes "exit"
word quit = codes "quit"
word reset = codes "reset"
word start = codes "start"
