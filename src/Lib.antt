-- ===== src/Lib.antt =====
-- aeron-cluster-cpp: a C++ client and a C++ service container for Aeron Cluster.
--
-- The service container (src/service) runs an application as one replica of a cluster. Its agent,
-- ClusteredServiceAgent, takes instructions from the consensus module through ServiceAdapter, reads
-- the cluster's log through BoundedLogAdapter, calls the application (ClusteredService), keeps the
-- table of client sessions, sends requests through ConsensusModuleProxy, and takes and loads
-- snapshots. The client (src/client) connects to a cluster through AeronCluster::AsyncConnect and
-- reads the cluster's answers through EgressPoller and EgressAdapter.
--
-- The files and the code that they model:
--   Prelude        shared names; Prelude/Int the integers over the native numbers, Prelude/Map
--                  std::unordered_map, Prelude/Outcome code that changes an object and may throw,
--                  Prelude/Keeps computations that keep an invariant, however they end
--   Aeron          the constants of the Aeron library, a parameter of everything
--   Publication    a publication as its callers see it, for the retry loops of the proxy and of
--                  SnapshotTaker: `verdict` sums such a loop up, and Publication/Settles says what a
--                  verdict means for the answers alone
--   Sessions       m_sessionByIdMap and m_sessions of src/service/ClusteredServiceAgent.cpp with
--                  src/service/ContainerClientSession.cpp. A session lies at an address, and the map
--                  holds addresses: a pointer that outlives its session would be seen. Sessions/Laws
--                  has the invariant IsValid and the lookups through the map as a finite map, Sessions/Mapped the
--                  sessions that a lookup reaches.
--   Proxy          src/service/ConsensusModuleProxy.h (claim, tryClaim, checkResult)
--   ClusterCounters, RecoveryState
--                  src/service/ClusterCounters.cpp and src/service/RecoveryState.cpp
--   Snapshot       src/service/SnapshotTaker.h, ServiceSnapshotTaker.h (Snapshot/Taker) and
--                  src/service/ServiceSnapshotLoader.cpp (Snapshot/Loader)
--   Agent          src/service/ClusteredServiceAgent.cpp: the object (Agent/State), what the outside
--                  answers in a duty cycle (Agent/Driver), the calls that the application may make
--                  and the callbacks (Agent/Service), the handlers of the log's events
--                  (Agent/Events), joining and leaving the log (Agent/Log), doWork (Agent/Duty),
--                  src/service/ServiceAdapter.cpp (Agent/Adapter), AsyncConnect (Agent/Search,
--                  Agent/Launch), the waiting loops at the head of the file (Agent/Await), and
--                  SnapshotState::doWork (Agent/Duty, Agent/Duty/Snapshot)
--   Cycle          the duty cycles of the agent as a whole. Cycle/Stable is what a property must promise,
--                  Cycle/Parts, Snapshot and Polls what a whole call of doWork then keeps,
--                  whichever of its parts throws, Cycle/Rounds any number of cycles; Cycle/Table and
--                  Cycle/Numbers are two such properties, of the sessions and the acknowledgements;
--                  Cycle/Numbers/Life goes from the configuration over the launch to the cycles.
--                  Agent/Service/Live, LogAdapter/Defined and Cycle/Defined are about undefined behaviour
--   LogAdapter     src/service/BoundedLogAdapter.cpp: what the library's fragment assembler, which stands in
--                  front of it, hands on; messages to handlers.
--                  LogAdapter/Replica is the abstract specification, a replica that knows nothing of
--                  applications, roles, drivers and pointers; LogAdapter/Refine has the
--                  refinement, LogAdapter/Agree what follows for a whole log, LogAdapter/Restart for a
--                  snapshot and the rest of it.
--   Configuration  src/service/ClusteredServiceConfiguration.h and .cpp: the context of a service, its
--                  setters (Configuration/Settings), conclude (Configuration/Conclude) and
--                  ClusteredServiceAgent::asyncConnect (Configuration/Start)
--   MarkFile       src/service/ClusterMarkFile.h and .cpp: the names, the header and its constructor
--   Program        src/service/service-main.cpp (Program/Service, without a snapshot) and
--                  src/client/main.cpp (Program/Client)
--   Client         src/client/EgressPoller.cpp (Client/Poller), src/client/EgressAdapter.cpp
--                  (Client/Adapter), parseIngressEndpoints (Client/Endpoints) and AsyncConnect of
--                  src/client/AeronCluster.cpp (Client/State, Client/Ingress, Client/Session,
--                  Client/Connect), the context of src/client/AeronCluster.h (Client/Configuration) and
--                  src/client/IngressSessionDecorator.h and .cpp (Client/Decorator)
--   Tests          the theorems at concrete inputs
--
-- Stateful code is a function from the object to an Outcome: the object after the call, with a
-- result or an exception; what was written before a throw stays written. Undefined behaviour, a
-- read through a null or dangling pointer, is the exception `undefined`. The application is an
-- arbitrary function from the callbacks so far to a Script, which may call back into the agent and
-- go on by the reply. The members that constructors leave uninitialised are parameters.
--
-- Loops: the three attempts of tryClaim and of ContainerClientSession::connect are by the attempts
-- left. `while (true)` of SnapshotTaker::offer and the loop of parseIngressEndpoints have no bound of
-- their own and run on `rounds`, with the exception `out_of_fuel` where these run out; `Accepts` is
-- the condition on a publication under which a number of rounds is enough for any offer. The loops
-- that wait (the await functions of ClusteredServiceAgent.cpp, and the loops of the two main programs
-- that poll a connection) run on rounds in the same way, with what the outside answers in each round
-- as a function of its number; Agent/Await/Ends and Program are about how many. All other
-- loops are over lists.
--
-- Not modelled: the Aeron client and its driver, the archive client, the generated codecs and the
-- operating system's files, which are not in the repository (they are the parameters Constants,
-- Driver, LaunchDriver, StartDriver, ClientDriver, CountersReader, RecordingRound, AeronLibrary,
-- ArchiveSettings, MarkFileCodec, FileSystem, SnapshotCodec, LogCodec, Framing and Handed, and the answers to the
-- polls); the accessors of ClusterMarkFile that go through m_buffer, which no code wraps around the
-- mapping; the loop at the end of service-main.cpp, which repeats the duty cycle for ever;
-- src/service/ack-main.cpp and archive-connect.cpp, which try out calls of the archive client; output to
-- std::cout; idle strategies. Integers are unbounded: the code compares positions and identities, and
-- adds only 1 to the number of an acknowledgement and to a time, and lengths to offsets.
pub mod Prelude
pub mod Sessions
pub mod Aeron
pub mod Publication
pub mod Proxy
pub mod ClusterCounters
pub mod RecoveryState
pub mod Snapshot
pub mod Agent
pub mod Configuration
pub mod Program
pub mod MarkFile
pub mod Cycle
pub mod LogAdapter
pub mod Client
pub mod Tests
