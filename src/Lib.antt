-- ===== src/Lib.antt =====
-- Verification of AP2030-UNS, a production system of MQTT stations, planar movers and a planner.
-- The parts modelled, and the files that model them:
--
-- PackMl is the station state machine of PackML_Stations/PackMLSimulator.py. `Machine` is the
--   attributes of PackMLStateMachine; the methods are operations on it of the same names, and a
--   method that raises returns the machine as it stood then. PackMl/States has transition_to and
--   the methods it calls, PackMl/Commands the state commands and Abort, PackMl/Occupation the
--   queue of clients, PackMl/Execution the commands' threads, PackMl/Trace runs over events. What
--   is published goes to a log, newest first. transition_to takes fuel for its nested calls; six
--   are enough from every state, and a spent fuel would be Python's RecursionError. Callbacks run
--   one at a time, where the program gives each a thread of its own.
--
-- Planar is SimpleController of Planar_Controller/xbot_planner.py, which commands the movers:
--   Planar/Controller has its states, buttons, commands and tasks, Planar/Buttons compares the
--   buttons with the commands, Planar/Commands is what commands leave, Planar/Published and
--   Planar/Reports what they publish of the movers. Calls of the XBot library and of MQTT go to a
--   log, and waits are left out. Planar/Mover is the state of one mover's task with the choice of
--   a rotation point and find_nearest_valid_position, Planar/Plan is plan_path, Planar/Execute a
--   turn of the loop of execute_xbot, Planar/Task the whole of it and Planar/Handle
--   handle_single_task. What positions, statuses and rotations read is given to these as lists,
--   in micrometres and microradians; the end of the statuses of a wait is its time-out, and the
--   end of the turns a state in which the loop still runs. Planar/Track, Planar/Routes and
--   Planar/Clear are about the paths that are planned, Planar/Rings and Planar/Nearest about the
--   search for a start, and Planar/Bounds, Planar/Moves, Planar/Arrives, Planar/Stops,
--   Planar/Replans and Planar/Level about the execution.
--
-- Planning is PackML_Stations/planning. Planning/Matcher is the matching of a product's process
--   steps to the capabilities of resources in capability_matcher.py, and Planning/Best and
--   Planning/Matched are about it, Planning/Steps is its extraction of the steps from a product's
--   configuration. Planning/Generator and Planning/Subtrees are bt_generator.py: the trees are
--   values, `iter` lists the elements of one tag in them, and the parser of the subtree files and
--   the order in which Python goes through a set are parameters. Planning/Production,
--   Planning/Calls and Planning/Prebuilt are about what the trees call. Planning/Service and
--   Planning/Response are the workflow of planner_service.py and the command of
--   productionPlanner.py, Planning/Hierarchy its search for the assets below the given ones,
--   whose fuel is one for each turn of the loop: what the workflow fetches from the AAS servers,
--   and the whole Process AAS configuration, are fields of `Environment`, and what it saves and
--   publishes is a log. Planning/Process is the grouping of the required capabilities in
--   process_aas_generator.py, and Planning/Process/Needs and Planning/Process/Groups about it.
--   Texts are lists of code points; letter case and white space are those of ASCII, and values
--   that are only passed on (durations, parameters, properties) are texts.
--
-- Paths is the search for a mover's path in Planar_Controller/library/astar_pathfinding.py.
--   Paths/Grid has the grid and a cell's neighbours, Paths/Search the search: its heap is a list
--   from which the least entry is taken, in the order of Python's tuples, and its costs are whole
--   numbers of tenths where the source has floating point numbers. The fuel is 2 + n * ((10 + t)
--   * n + 1) for n cells and a turning cost t, as each turn of the loop lowers a sum over the
--   cells' scores and the heap; the way back takes the goal's score and one. The other modules of
--   Paths are the proof, in the order Measure, Route, Invariant, Push, Relax, Take, Correct,
--   Astar. Paths/Occupancy is create_occupancy_grid of occupancy_grid.py, with scipy's
--   binary_dilation as a parameter, and Paths/Obstacles and Paths/Clearance are about the paths
--   found on its grids. Paths/Simplify is simplify_path of path_simplifier.py, and Paths/Merge
--   and Paths/Shortcuts its merging of segments, with positions in micrometres; the fuel of its
--   loop is the number of points.
--
-- Delegation is OperationDelegation: AAS operations as MQTT commands and their responses.
--   Delegation/Values has the values in messages, Delegation/Bridge the pending operations of
--   MQTTOperationBridge in operation_delegation_service.py, where a run is any sequence of
--   starts, failures and ends of invocations and of messages that come in. Delegation/Effects,
--   Delegation/Delivery, Delegation/Isolation, Delegation/Owning and Delegation/Alone are about
--   what comes of them. Delegation/Schema is schema_parser.py for a schema whose references are
--   resolved, Delegation/Command and Delegation/Response are the building of commands and of
--   response variables, and Delegation/Service the endpoint invoke_asset_skill with
--   invoke_operation and invoke_one_way. Delegation/Extract, Delegation/Found,
--   Delegation/Packing, Delegation/Items, Delegation/RoundTrip, Delegation/Keys,
--   Delegation/Fields and Delegation/Topics are the proofs. What parse_schema gives for a URL is
--   a parameter.
--
-- Registration is what the registration service keeps for the delegation service.
--   Registration/Endpoint is a configuration and its MQTT endpoint, Registration/Config its
--   actions and its delegation entry, in Registration_Service/src/config_parser.py,
--   Registration/Topics the topics of all assets in topics_generator.py beside it,
--   Registration/Replay what they hold after any registrations and removals, and
--   Registration/Lookup and Registration/Requests what the delegation service makes of it. The
--   YAML is parsed, and numbers in it are given as `int` reads them.
--
-- Not modelled: the servers and clients of AAS and MQTT, the other parts of the registration
--   service, and the parts in other languages.
pub mod Prelude
pub mod PackMl
pub mod Planar
pub mod Planning
pub mod Paths
pub mod Delegation
pub mod Registration
