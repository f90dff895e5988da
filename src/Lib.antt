-- ===== src/Lib.antt =====
-- Verification of the plugins of nestdaq for the daq service, the topology, the parameters and the
-- metrics, and of its web controller.
--
-- A nestdaq process is a FairMQ device with plugins. The daq service plugin
-- (plugins/DaqServicePlugin.cxx) claims an id for the instance in a Redis registry, drives the
-- device through its states on commands that arrive on a Redis channel, and shuts it down. The
-- topology plugin (plugins/TopologyConfig.cxx) keeps the sockets of the device in the registry, where
-- the peers find them. The parameter plugin (plugins/ParameterConfigPlugin.cxx) reads properties of the
-- device from hashes of the registry. The metrics plugin (plugins/MetricsPlugin.cxx) sends the load
-- of the process and of its sockets to the registry, and deletes there the fields of the instances
-- whose presence has expired. The web controller (controller/WebGui.cxx) publishes the commands,
-- waits for states and frees the index of an instance whose presence has expired.
--
-- The files and what they model:
--   Base               shared names, Boolean tests, lists measured by native numbers
--   Text               std::string as the list of its bytes; Text/Number: std::to_string and
--                      std::stoi on 32-bit ints, std::stoll and std::stoull; Text/Search:
--                      find_first_of, find_last_of and substr on 64-bit sizes, with wrap-around;
--                      Text/Split: boost::split and boost::trim_if, parameters; Text/Table: std::map;
--                      Text/Names: lists of names as sets
--   Redis              the commands sent to Redis, a parameter, and the laws relied on
--   Device/Constants   the command words of plugins/Constants.h, and the states of fair::mq
--   Device/Engine      the FairMQ device, a parameter, and its documented state diagram
--   Device/Single      ChangeDeviceStateBySingleCommand
--   Device/Multi       ChangeDeviceStateByMultiCommand
--   Device/Sequences   RunStartupSequence, RunShutdownSequence
--   Device/Message     SubscribeToDaqCommand and fStateControlThread
--   Device/Abstract    the state diagram that the commands are meant to walk
--   Service/Instance   SetId
--   Service/Unregister Unregister
--   Service/Register   Register behind SetId, ResetTtl at each tick of the timer
--   Topology/Property  SocketProperty of plugins/TopologyData.h, ToSocketProperty
--   Topology/Channel   WriteChannel, ResetTtl
--   Topology/Address   MakeAddress
--   Topology/Resolve   ResolveConnectAddress, the peers of one channel
--   Topology/Sockets   WriteAddress, WriteBindAddress, WriteConnectAddress, Unregister
--   Topology/Lookup    ReadPeerAddress
--   Topology/ChannelConfig, Announcements, Peers, Start
--                      ToChannelConfig; what Initialize reads; the peers that it finds; Initialize
--                      and Reset
--   Topology/Waiting   WaitBindAddress, WaitForPeerConnection
--   Topology/Link      LinkProperty of plugins/TopologyData.h, ReadLinkProperty
--   Controller/RunNumber, Wait, Publish, Expired, Summary
--                      the run number, Wait, RedisPublishDaqCommand, ProcessExpiredKey, PollState and
--                      the flags of SendStateSummary (controller/WebGui.cxx)
--   Parameters/Property, Reserved, Read, Change
--                      SetPropertyFromString; Parse and the reserved options; ReadParameters; the
--                      constructor and SubscribeToParameterChange (plugins/ParameterConfigPlugin.cxx)
--   Metrics/Keys, Expiry, Sockets, Line, Commands, Rounds
--                      the keys of MetricsPlugin; DeleteExpiredFields;
--                      InitializeSocketProperties; the expression of SendSocketMetrics; what is
--                      queued; SendSocketMetrics and SendProcessMetrics
--                      (plugins/MetricsPlugin.cxx)
--   Tests              a simulated device, a Redis server as a list of entries, and the theorems at
--                      concrete inputs
--
-- The control thread is a function on explicit state: the device, the two request flags and the run
-- times written. A call that may block returns an Option, `none` for a call that never returns.
-- The loops that wait for a state run on fuel: two rounds are enough for a command, since a
-- transition passes through at most two states, and seven for the shutdown. The search for an
-- index runs on fuel: one more than the hash has entries is enough; that for the sockets of a
-- channel, one more than the channel has sockets. The retries of ReadPeerAddress need two rounds more
-- than their maximum. Exceptions are values.
--
-- FairMQ, redis-plus-plus, Boost.PropertyTree, the Boost string algorithms, float and double are
-- parameters, with their documented behaviour as named hypotheses (Documented, HashLaws, ListLaws,
-- DelLaws, StringLaws, SplitLaws, CompressLaws, KeyLaws, ForeignLaws, FieldLaws, HostLaws,
-- SetexLaws, TestLaws), which the models of Tests fulfil. What a loop polls is a list of stores, one
-- for each round, and it ends or not by what it sees. The asserts of ResolveConnectAddress are on, as
-- in a build with no build type.
--
-- Not modelled: the lock around SetId and its retries, the callback of the state changes in the
-- other thread (its writes of the state and its calls of the topology), the exceptions of Register,
-- the values of times and of host properties, logging, the rest of ResolveConnectAddress and
-- ConfigConnect of the topology, the connections of the web controller and its web server, the time
-- series and the state callback of the metrics plugin, the telemetry plugin, and the examples.
-- SetId keeps no property "id" of the device here.
pub mod Base
pub mod Text
pub mod Redis
pub mod Device
pub mod Service
pub mod Topology
pub mod Controller
pub mod Metrics
pub mod Parameters
pub mod Tests
